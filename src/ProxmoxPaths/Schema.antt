-- ===== src/ProxmoxPaths/Schema.antt =====
-- The shape of the read surface (jobs/proxmox_paths.py, `_SURFACE` and `_RULES`): a template with
-- its identifiers, and the schemas of its query parameters.
use nautobot_testsuite.Base.{ℕ, Option, none, some, List, Text, Dict}

-- The grammars of `_IDENTIFIERS`, and `_ID` for every other placeholder.
pub data Identifier : Type 0 where
  name vmid number poolid userid upid cidr : Identifier

pub data Piece : Type 0 where
  lit : Text → Piece
  ident : Identifier → Piece

pub data Kind : Type 0 where
  string integer boolean : Kind

-- {"type": ..., "enum": ..., "maxLength": ..., "minimum": ..., "maximum": ...}
pub record Schema : Type 0 where
  pub kind : Kind
  pub enum : Option (List Text)
  pub max_length : Option ℕ
  pub minimum : Option ℕ
  pub maximum : Option ℕ

abbrev pub plain : Kind → Schema
plain kind = record { kind = kind; enum = none; max_length = none; minimum = none; maximum = none }

abbrev pub one_of : List Text → Schema
one_of values = record (plain string) { enum = some values }

abbrev pub at_most : ℕ → Schema
at_most length = record (plain string) { max_length = some length }

abbrev pub at_least : ℕ → Schema
at_least least = record (plain integer) { minimum = some least }

abbrev pub between : ℕ → ℕ → Schema
between least most = record (plain integer) { minimum = some least; maximum = some most }

pub data Rule : Type 0 where
  rule : List Piece → Dict Schema → Rule
