-- ===== src/Adapters/Postgres.antt =====
-- src/adapters/postgres: the pool of the package pg, of which the stores use these methods. A query
-- that names the type of its rows is a method of its own here.
pub mod Messages
pub mod MessagesTable
pub mod Newest
pub mod Contract
pub mod Tombstones
pub mod Conversations
pub mod Atomicity
pub mod Lookups
use jiffy_messaging.Base.{ℕ, String, List}
use jiffy_messaging.Exec.{Exec}
use jiffy_messaging.Domain.{Instant}
use jiffy_messaging.Adapters.Rows.{MessageRow, ConversationParticipantRow}

-- A value that goes to the database beside the text.
pub data Param : Type 0 where
  text : String → Param
  instant : Instant → Param
  number : ℕ → Param
  texts : List String → Param

-- `{ id: string; created_at: Date }`
pub record InsertedRow : Type 0 where
  pub id : String
  pub created_at : Instant

pub record Client (S : Type 0) : Type 0 where
  pub query_inserted : String → List Param → Exec S (List InsertedRow)
  pub execute : String → List Param → Exec S (Unit {0})
  pub release : S → S

pub record Pool (S : Type 0) : Type 0 where
  pub query_messages : String → List Param → Exec S (List MessageRow)
  pub query_participants : String → List Param → Exec S (List ConversationParticipantRow)
  pub execute : String → List Param → Exec S (Unit {0})
  pub connect : Exec S (Client S)
