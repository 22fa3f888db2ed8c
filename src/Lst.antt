-- ===== src/Lst.antt =====
-- ast_node.go, the node record, and ast_editor.go, the editor.
mod Tests
pub mod Heap
pub mod Pool
pub mod Structure
pub mod Spans
pub mod Flatten
