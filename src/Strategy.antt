-- ===== src/Strategy.antt =====
-- The strategy engine and its knowledge base (src/core/strategy/rules.py and
-- src/core/knowledge/memory.py).
pub mod Knowledge
pub mod Engine
pub mod Search
pub mod Actions
use qaestro.Prelude.{String, List}

pub record KnowledgeEntry : Type 0 where
  pub key : String
  pub summary : String
  pub repos : List String
  pub checklist_items : List String

pub record KnowledgeQuery : Type 0 where
  pub repo_full_name : String
  pub query_text : String
