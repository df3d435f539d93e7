-- ===== src/Retrieval.antt =====
-- packages/retrieval: the documents of a course, cut into segments that fit one call of a model.
pub mod Contracts
pub mod Partition
mod Tests
