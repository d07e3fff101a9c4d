-- ===== src/Containers.antt =====
-- The containers of os_kernel/src.
pub mod Vector
pub mod Deque
pub mod UnorderedMap
pub mod LinkedList
pub mod OrderedMap
pub mod Text
