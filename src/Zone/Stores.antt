-- ===== src/Zone/Stores.antt =====
-- The tables of both databases that the DNS activities use, with their foreign keys
-- (migrations/core/00010_zones.sql, 00011_zone_records.sql, migrations/powerdns), and statements on
-- them. Times are left out. A query gives its rows in the order of the table.
use hosting.Common.{
  ℕ, ◌+◌, Bool, true, Bytes, bytes_eq, is_text, Option, none, some, List, [], ◌∷◌, ◌++◌, any,
  if◌then◌else◌, ◌==◌,
}
use hosting.Common.Int.{ℤ}
use hosting.Common.Result.{Result, ok, err}

pub record Zone : Type 0 where
  pub id : Bytes
  pub name : Bytes
  pub status : Bytes

pub record ZoneRecord : Type 0 where
  pub id : Bytes
  pub zone_id : Bytes
  pub kind : Bytes
  pub name : Bytes
  pub content : Bytes
  pub ttl : ℤ
  pub priority : Option ℤ
  pub managed_by : Bytes
  pub source_type : Bytes
  pub source_fqdn_id : Option Bytes
  pub status : Bytes
  pub status_message : Option Bytes

pub record Fqdn : Type 0 where
  pub id : Bytes
  pub fqdn : Bytes
  pub status : Bytes

-- PowerDNS's tables.
pub record Domain : Type 0 where
  pub id : ℕ
  pub name : Bytes
  pub kind : Bytes

pub record DnsRecord : Type 0 where
  pub domain_id : ℕ
  pub name : Bytes
  pub kind : Bytes
  pub content : Bytes
  pub ttl : ℤ
  pub prio : Option ℤ

-- `next_domain` is the sequence that numbers the domains.
pub record Stores : Type 0 where
  pub zones : List Zone
  pub zone_records : List ZoneRecord
  pub fqdns : List Fqdn
  pub domains : List Domain
  pub records : List DnsRecord
  pub next_domain : ℕ

-- What is not the program's: whether the n-th statement fails, PostgreSQL's text for a violated
-- constraint, `gen_random_uuid()` in the n-th statement, and its LIKE on a text and a pattern.
pub record Server : Type 0 where
  pub fault : ℕ → Option Bytes
  pub violation : Bytes
  pub uuid : ℕ → Bytes
  pub like : Bytes → Bytes → Bool

-- How code that sends statements ends: the tables, and the number of statements sent.
pub data Outcome (A : Type 0) : Type 0 where
  done : A → Stores → ℕ → Outcome A
  failed : Bytes → Stores → ℕ → Outcome A

abbrev pub M : Type 0 → Type 0
M A = Stores → ℕ → Outcome A

abbrev pub pure : {A : Type 0} → A → M A
pure a s n = done a s n

abbrev pub fail : {A : Type 0} → Bytes → M A
fail text s n = failed text s n

infixl 5 ◌>>=◌ ◌>>◌
unfoldable pub ◌>>=◌ : {A B : Type 0} → M A → (A → M B) → M B
◌>>=◌ m f s n = elim (m s n) [ done a s' n' ↦ f a s' n' | failed text s' n' ↦ failed text s' n' ]

abbrev pub ◌>>◌ : {B : Type 0} → M (Unit {0}) → M B → M B
m >> k = m >>= λ _. k

-- `x, err := ...`, where the code goes on after an error.
unfoldable pub attempt : {A : Type 0} → M A → M (Result A)
attempt m s n = elim (m s n) [
  | done a s' n' ↦ done (ok a) s' n'
  | failed text s' n' ↦ done (err text) s' n'
]

-- `_ = ...`
unfoldable pub ignore : {A : Type 0} → M A → M (Unit {0})
ignore m s n = elim (m s n) [ done a s' n' ↦ done tt s' n' | failed text s' n' ↦ done tt s' n' ]

-- `if err != nil { return fmt.Errorf("...: %w", err) }`
unfoldable pub wrap : {A : Type 0} → Bytes → M A → M A
wrap text m s n = elim (m s n) [
  | done a s' n' ↦ done a s' n'
  | failed e s' n' ↦ failed (text ++ e) s' n'
]

-- `for _, x := range xs { if err := f(x); err != nil { return err } }`
unfoldable pub for_each : {A : Type 0} → List A → (A → M (Unit {0})) → M (Unit {0})
for_each [] f = pure tt
for_each (x ∷ xs) f = f x >> for_each xs f

-- A query.
unfoldable pub query : {A : Type 0} → Server → (Stores → A) → M A
query srv rows s n = elim (srv.fault n) [
  | some text ↦ failed text s (n + 1)
  | none ↦ done (rows s) s (n + 1)
]

-- A statement that changes the tables, or fails by a constraint (`none`). It is told its number.
unfoldable pub exec : Server → (ℕ → Stores → Option Stores) → M (Unit {0})
exec srv change s n = elim (srv.fault n) [
  | some text ↦ failed text s (n + 1)
  | none ↦ elim (change n s) [
    | none ↦ failed srv.violation s (n + 1)
    | some s' ↦ done tt s' (n + 1)
  ]
]

-- A statement with `RETURNING`.
unfoldable pub exec_returning : {A : Type 0} → Server → (Stores → A × Stores) → M A
exec_returning srv change s n = elim (srv.fault n) [
  | some text ↦ failed text s (n + 1)
  | none ↦ let (a, s') = change s in done a s' (n + 1)
]

-- `source_fqdn_id TEXT REFERENCES fqdns(id)`: NULL, or the id of a row.
unfoldable pub references_fqdn : Option Bytes → List Fqdn → Bool
references_fqdn none fs = true
references_fqdn (some i) fs = any (λ f. bytes_eq f.id i) fs

-- `domain_id INT NOT NULL REFERENCES domains(id)`
unfoldable pub references_domain : ℕ → List Domain → Bool
references_domain i ds = any (λ d. d.id == i) ds

-- `SELECT name FROM zones WHERE name = $1 AND status = 'active'`
unfoldable pub active_zone : Bytes → List Zone → Option Zone
active_zone name [] = none
active_zone name (z ∷ zs) =
    if bytes_eq z.name name
    then (if is_text "active" z.status then some z else active_zone name zs)
    else active_zone name zs

-- `JOIN zones z ON z.id = zr.zone_id`: the zone with that primary key.
unfoldable pub zone_by_id : Bytes → List Zone → Option Zone
zone_by_id i [] = none
zone_by_id i (z ∷ zs) = if bytes_eq z.id i then some z else zone_by_id i zs
