-- ===== src/Python.antt =====
-- What the C code sees of the Python interpreter: objects (Value) and the calling thread's
-- exception and memory (State).
pub mod Value
pub mod State
