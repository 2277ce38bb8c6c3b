-- ===== src/Fisopfs/Handlers.antt =====
-- The handlers of fisopfs/fisopfs.c, one module for each family of operations. A handler takes
-- the state and gives its result with the new state.
pub mod Create
pub mod Remove
pub mod Content
pub mod Attributes
