-- ===== src/Ack.antt =====
-- The ACK providers of src/ack: the wait for an asynchronous task.
pub mod Task
