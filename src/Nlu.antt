-- ===== src/Nlu.antt =====
-- jarvis/agents/nlu_agent/__init__.py: classification of a request as a graph of capabilities, its
-- execution, and the cache of classifications.
pub mod Graph
pub mod Walks
pub mod Searches
pub mod Acyclic
pub mod Classify
pub mod Routable
pub mod Cache
pub mod Requests
pub mod Run
pub mod Handlers
pub mod Intent
pub mod Sets
pub mod Ready
pub mod Progress
pub mod Serving
pub mod Served
pub mod Blocked
pub mod Tests
