-- ===== src/ChainMap/Lists.antt =====
-- exercise5/src/lists: the lists that the buckets are made of. A list is the chain of its values from
-- `m_head`; a handle is the value that it points to, and `end()` is `none`. A method that holds a
-- mutex from its first to its last access is one step.
pub mod SingleMutexList
pub mod NodeMutexList
