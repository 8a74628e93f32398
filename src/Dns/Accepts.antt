-- ===== src/Dns/Accepts.antt =====
-- What the validation of a record's name and content accepts.
use hosting.Common.{
  ◌≡◌, ◌≢◌, refl, ◌↔◌, ◌⊎◌, inl, inr, true, false, ◌&&◌, Option, none, some, List, [], ◌∷◌, String,
  Bytes, codes, is_text, arith, Bool-cases, Option-cases, is_empty, ==_iff, ◌==◌,
}
use hosting.Common.TextLaws.{bytes_eq_iff}
use hosting.Common.Int.{ℤ}
use hosting.Common.Ascii.{atoi, fields}
use hosting.Dns.Hostname.{dot, unwildcarded, has_wildcard, is_valid_hostname, validate_record_name}
use hosting.Dns.Labels.{IsHostname, is_valid_hostname_iff}
use hosting.Dns.Content.{
  Ip, is_int_in, is_target, srv_parts, validate_srv_content, validate_record_content,
}
use hosting.Dns.Priority.{IsU16, between_iff, FitsPriority, validate_record_priority_iff}
use hosting.Dns.Record.{validate_zone_record}

-- `@`, `*`, a hostname that does not begin with `*.`, or a hostname behind `*.`
pub data IsRecordName : Bytes → Type 0 where
  apex : {name : Bytes} → name ≡ codes "@" → IsRecordName name
  star : {name : Bytes} → name ≡ codes "*" → IsRecordName name
  plain :
      {name : Bytes} → ((s : Bytes) → name ≢ b'*' ∷ dot ∷ s) → IsHostname name → IsRecordName name
  wildcard : {name : Bytes} (s : Bytes) → name ≡ b'*' ∷ dot ∷ s → IsHostname s → IsRecordName name

wildcard_cases :
    (name : Bytes)
    → ((s : Bytes) × (name ≡ b'*' ∷ dot ∷ s))
      ⊎ (((s : Bytes) → name ≢ b'*' ∷ dot ∷ s)
          × (has_wildcard name ≡ false)
          × (unwildcarded name ≡ name))
wildcard_cases [] = inr (λ s e. cc, refl, refl)
wildcard_cases (c ∷ []) = inr (λ s e. cc, refl, refl)
wildcard_cases (c ∷ d ∷ s) = elim (Bool-cases (c == b'*' && d == dot)) [
  | inl y ↦ inl (s, ground (arith, ==_iff c b'*', ==_iff d dot))
  | inr n ↦ inr (λ t e. ground (arith, ==_iff c b'*', ==_iff d dot), n, rw n refl)
]

empty_not_hostname : (s : Bytes) → is_valid_hostname s ≡ true → is_empty s ≡ false
unfolding is_valid_hostname
empty_not_hostname [] h = cc
empty_not_hostname (c ∷ s) h = refl

name_sound : (name : Bytes) → validate_record_name name ≡ none → IsRecordName name
unfolding validate_record_name
name_sound name h = elim (Bool-cases (is_text "@" name)) [
  | inl y ↦ apex ((bytes_eq_iff name (codes "@")).0 y)
  | inr n₀ ↦ elim (Bool-cases (is_text "*" name)) [
    | inl y ↦ star ((bytes_eq_iff name (codes "*")).0 y)
    | inr n₁ ↦ elim (wildcard_cases name) [
      | inl (s, e) ↦ wildcard s e ((is_valid_hostname_iff s).0 (ground arith))
      | inr (none_such, w, u) ↦ plain none_such ((is_valid_hostname_iff name).0 (ground arith))
    ]
  ]
]

name_complete : (name : Bytes) → IsRecordName name → validate_record_name name ≡ none
unfolding validate_record_name
name_complete name (apex e) = rw ((bytes_eq_iff name (codes "@")).1 e) refl
name_complete name (star e) = let p = (bytes_eq_iff name (codes "*")).1 e in ground arith
name_complete name (plain h v) =
    let ok = (is_valid_hostname_iff name).1 v in
    elim (wildcard_cases name) [
      | inl (s, e) ↦ absurd (h s e)
      | inr (none_such, w, u) ↦ ground arith
    ]
name_complete name (wildcard s e v) =
    let ok = (is_valid_hostname_iff s).1 v in let ne = empty_not_hostname s ok in ground arith

-- A record name passes exactly if it is `@`, `*`, a hostname, or a hostname behind `*.`.
pub validate_record_name_iff :
    (name : Bytes) → (validate_record_name name ≡ none) ↔ IsRecordName name
validate_record_name_iff name = (name_sound name, name_complete name)

-- Three fields: two numbers from 0 to 65535, and `.` or a hostname.
pub record IsSrv (content : Bytes) : Type 0 where
  pub weight : Bytes
  pub port : Bytes
  pub target : Bytes
  pub split_up : fields content ≡ weight ∷ port ∷ target ∷ []
  pub weight_value : ℤ
  pub weight_read : atoi weight ≡ some weight_value
  pub weight_fits : IsU16 weight_value
  pub port_value : ℤ
  pub port_read : atoi port ≡ some port_value
  pub port_fits : IsU16 port_value
  pub target_fits : (target ≡ codes ".") ⊎ IsHostname target

int_in_sound : (s : Bytes) → is_int_in 0 65535 s ≡ true → (n : ℤ) × (atoi s ≡ some n) × IsU16 n
unfolding is_int_in
int_in_sound s h = elim (Option-cases (atoi s)) [
  | inl e ↦ absurd (cc (rw (e, is_int_in) at h))
  | inr (n, e) ↦ (n, e, (between_iff n).0 (ground arith))
]

int_in_complete : (s : Bytes) (n : ℤ) → atoi s ≡ some n → IsU16 n → is_int_in 0 65535 s ≡ true
unfolding is_int_in
int_in_complete s n e u = let b = (between_iff n).1 u in ground arith

target_sound : (t : Bytes) → is_target t ≡ true → (t ≡ codes ".") ⊎ IsHostname t
target_sound t h = elim (Bool-cases (is_text "." t)) [
  | inl y ↦ inl ((bytes_eq_iff t (codes ".")).0 y)
  | inr n₀ ↦ inr ((is_valid_hostname_iff t).0 (ground arith))
]

target_complete : (t : Bytes) → (t ≡ codes ".") ⊎ IsHostname t → is_target t ≡ true
target_complete t (inl e) = rw ((bytes_eq_iff t (codes ".")).1 e) refl
target_complete t (inr v) = let ok = (is_valid_hostname_iff t).1 v in ground arith

srv_parts_sound :
    (content : Bytes) (ps : List Bytes) → fields content ≡ ps → srv_parts ps ≡ none → IsSrv content
unfolding srv_parts
srv_parts_sound content [] e h = cc
srv_parts_sound content (w ∷ []) e h = cc
srv_parts_sound content (w ∷ p ∷ []) e h = cc
srv_parts_sound content (w ∷ p ∷ t ∷ []) e h =
    let (n, en, un) = int_in_sound w (ground arith) in
    let (m, em, um) = int_in_sound p (ground arith) in
    record {
      weight = w;
      port = p;
      target = t;
      split_up = e;
      weight_value = n;
      weight_read = en;
      weight_fits = un;
      port_value = m;
      port_read = em;
      port_fits = um;
      target_fits = target_sound t (ground arith);
    }
srv_parts_sound content (w ∷ p ∷ t ∷ x ∷ ps) e h = cc

validate_srv_complete : (content : Bytes) → IsSrv content → validate_srv_content content ≡ none
unfolding validate_srv_content srv_parts
validate_srv_complete content v =
    rw
      (
        v.split_up,
        int_in_complete _ _ v.weight_read v.weight_fits,
        int_in_complete _ _ v.port_read v.port_fits,
        target_complete _ v.target_fits,
      )
      refl

-- The content of an SRV record passes exactly if its fields are three: two numbers from 0 to 65535,
-- and a target that is `.` or a hostname.
pub validate_srv_content_iff :
    (content : Bytes) → (validate_srv_content content ≡ none) ↔ IsSrv content
unfolding validate_srv_content
validate_srv_content_iff content = (srv_parts_sound content _ refl, validate_srv_complete content)

-- No text passes both as the content of an A record and as that of an AAAA record, whatever texts
-- are read as addresses of the two kinds.
pub a_not_aaaa :
    (parse_ip : Bytes → Option Ip) (content : Bytes)
    → validate_record_content parse_ip "A" content ≡ none
    → validate_record_content parse_ip "AAAA" content ≢ none
unfolding validate_record_content
a_not_aaaa parse_ip content a aaaa = ground arith

record_sound :
    (ip : Bytes → Option Ip) (t : String) (name content : Bytes) (p : Option ℤ)
    → validate_zone_record ip t name content p ≡ none
    → IsRecordName name × (validate_record_content ip t content ≡ none) × FitsPriority t p
unfolding validate_zone_record
record_sound ip t name content p h = (
  (validate_record_name_iff name).0 (ground arith),
  ground arith,
  (validate_record_priority_iff t p).0 (ground arith),
)

record_complete :
    (ip : Bytes → Option Ip) (t : String) (name content : Bytes) (p : Option ℤ)
    → IsRecordName name × (validate_record_content ip t content ≡ none) × FitsPriority t p
    → validate_zone_record ip t name content p ≡ none
unfolding validate_zone_record
record_complete ip t name content p (n, c, f) =
    rw ((validate_record_name_iff name).1 n, c, (validate_record_priority_iff t p).1 f) refl

-- A record passes exactly if its name is a record name, its content passes for its type, and its
-- priority is as the type asks.
pub validate_zone_record_iff :
    (ip : Bytes → Option Ip) (t : String) (name content : Bytes) (p : Option ℤ)
    → (validate_zone_record ip t name content p ≡ none)
      ↔ (IsRecordName name × (validate_record_content ip t content ≡ none) × FitsPriority t p)
validate_zone_record_iff ip t name content p =
    (record_sound ip t name content p, record_complete ip t name content p)
