-- ===== src/Incident/Growing.antt =====
-- Insertions that keep the constraints (internal/core/incident.go).
use mathlib.Core.List.{map-append}
use hosting.Common.{
  ◌≡◌, refl, ap, inl, inr, Bool, true, false, Bytes, none, List, [], ◌∷◌, ◌++◌, map, all,
  Bool-cases, arith,
}
use hosting.Common.Text.{bytes_eq}
use hosting.Common.TextLaws.{bytes_eq_iff}
use hosting.Incident.Tables.{
  Incident, IncidentEvent, Tables, is_open, member, distinct, open_keys, incident_ids, admissible,
  add_row, add_event,
}
use hosting.Incident.Service.{lookup_open}

bytes_eq_comm : (s t : Bytes) → bytes_eq s t ≡ false → bytes_eq t s ≡ false
bytes_eq_comm s t h = ground (arith, bytes_eq_iff s t, bytes_eq_iff t s)

member_snoc :
    (k x : Bytes) (xs : List Bytes)
    → member k xs ≡ false
    → bytes_eq x k ≡ false
    → member k (xs ++ (x ∷ [])) ≡ false
unfolding member
member_snoc k x [] h e = rw e refl
member_snoc k x (y ∷ ys) h e = let ih = member_snoc k x ys in ground arith

member_left : (k : Bytes) (xs ys : List Bytes) → member k xs ≡ true → member k (xs ++ ys) ≡ true
unfolding member
member_left k [] ys h = cc
member_left k (x ∷ xs) ys h = let ih = member_left k xs ys in ground arith

distinct_snoc :
    (k : Bytes) (xs : List Bytes)
    → distinct xs ≡ true
    → member k xs ≡ false
    → distinct (xs ++ (k ∷ [])) ≡ true
unfolding distinct member
distinct_snoc k [] h m = refl
distinct_snoc k (x ∷ xs) h m =
    let ih = distinct_snoc k xs in
    let e = bytes_eq_comm x k in let s = member_snoc x k xs in ground arith

all_snoc :
    {A : Type 0} (p : A → Bool) (x : A) (xs : List A)
    → all p xs ≡ true
    → p x ≡ true
    → all p (xs ++ (x ∷ [])) ≡ true
all_snoc p x [] h e = rw e refl
all_snoc p x (y ∷ ys) h e = let ih = all_snoc p x ys in ground arith

open_keys_snoc :
    (i : Incident) (is : List Incident)
    → is_open i ≡ true
    → open_keys (is ++ (i ∷ [])) ≡ open_keys is ++ (i.dedupe_key ∷ [])
unfolding open_keys
open_keys_snoc i [] o = rw o refl
open_keys_snoc i (j ∷ is) o =
    let ih = open_keys_snoc i is o in
    elim (Bool-cases (is_open j)) [
      | inl e ↦ rw e (ap (λ ks. j.dedupe_key ∷ ks) ih)
      | inr e ↦ rw e ih
    ]

pub lookup_open-member :
    (key : Bytes) (is : List Incident)
    → lookup_open key is ≡ none
    → member key (open_keys is) ≡ false
unfolding lookup_open open_keys member
lookup_open-member key [] h = refl
lookup_open-member key (i ∷ is) h = let ih = lookup_open-member key is in ground arith

still_referred :
    (ids more : List Bytes) (es : List IncidentEvent)
    → all (λ e. member e.incident_id ids) es ≡ true
    → all (λ e. member e.incident_id (ids ++ more)) es ≡ true
still_referred ids more [] h = refl
still_referred ids more (e ∷ es) h =
    let ih = still_referred ids more es in
    let m = member_left e.incident_id ids more in ground arith

pub add_event-admissible :
    (e : IncidentEvent) (t : Tables)
    → admissible t ≡ true
    → member e.id (map (λ x. x.id) t.events) ≡ false
    → member e.incident_id (incident_ids t.incidents) ≡ true
    → admissible (add_event e t) ≡ true
unfolding admissible
add_event-admissible e t h f m =
    let ids = map (λ (x : IncidentEvent). x.id) t.events in
    let split : map (λ x. x.id) (t.events ++ (e ∷ [])) ≡ ids ++ (e.id ∷ []) =
      map-append (λ x. x.id) t.events (e ∷ []) in
    let d = distinct_snoc e.id ids in
    let a = all_snoc (λ x. member x.incident_id (incident_ids t.incidents)) e t.events in
    rw split (ground arith)

pub add_row-admissible :
    (i : Incident) (t : Tables)
    → admissible t ≡ true
    → is_open i ≡ true
    → member i.id (incident_ids t.incidents) ≡ false
    → member i.dedupe_key (open_keys t.incidents) ≡ false
    → admissible (add_row i t) ≡ true
unfolding admissible
add_row-admissible i t h o f m =
    let ids = incident_ids t.incidents in
    let split : incident_ids (t.incidents ++ (i ∷ [])) ≡ ids ++ (i.id ∷ []) =
      map-append (λ x. x.id) t.incidents (i ∷ []) in
    let d = distinct_snoc i.id ids in
    let k = distinct_snoc i.dedupe_key (open_keys t.incidents) in
    let r = still_referred ids (i.id ∷ []) t.events in
    rw (split, open_keys_snoc i t.incidents o) (ground arith)

pub member_last : (k : Bytes) (xs : List Bytes) → member k (xs ++ (k ∷ [])) ≡ true
unfolding member
member_last k [] = rw ((bytes_eq_iff k k).1 refl) refl
member_last k (x ∷ xs) = let ih = member_last k xs in ground arith
