-- ===== src/Investigation/Grouping.antt =====
-- What the groups of the incident queue are.
use mathlib.Core.Path.{fun_ext}
use mathlib.Core.List.{append_assoc, append-nil}
use hosting.Common.{
  Bool, true, false, ◌||◌, Bytes, bytes_eq, ◌≡◌, refl, sym, ◌∙◌, ap, none, List, [], ◌∷◌, ◌++◌, map,
  if◌then◌else◌, arith, Bool-cases, inl, inr,
}
use hosting.Common.TextLaws.{bytes_eq_iff}
use hosting.Investigation.Queue.{
  UnassignedIncident, IncidentGroup, ByType, found, is_present, append_to, group_loop,
  group_by_type,
}

-- The incidents of one type, in their order.
abbrev pub of_type : Bytes → List UnassignedIncident → List UnassignedIncident
of_type t [] = []
of_type t (i ∷ is) = if bytes_eq t i.type then i ∷ of_type t is else of_type t is

abbrev pub is_in : Bytes → List Bytes → Bool
is_in t [] = false
is_in t (s ∷ ss) = bytes_eq t s || is_in t ss

-- The texts that are not among those before.
abbrev pub fresh : List Bytes → List Bytes → List Bytes
fresh seen [] = []
fresh seen (t ∷ ts) = if is_in t seen then fresh seen ts else t ∷ fresh seen ts

-- The types, each where it first occurs.
abbrev pub types_of : List UnassignedIncident → List Bytes
types_of [] = []
types_of (i ∷ is) = i.type ∷ fresh (i.type ∷ []) (types_of is)

is_in-append :
    (t u : Bytes) (ss : List Bytes) → is_in t (ss ++ (u ∷ [])) ≡ (is_in t ss || bytes_eq t u)
is_in-append t u [] = ground arith
is_in-append t u (s ∷ ss) = let ih = is_in-append t u ss in ground arith

-- What is not among `ss` and not `u` is not among both.
fresh-append :
    (u : Bytes) (ss ts : List Bytes) → fresh ss (fresh (u ∷ []) ts) ≡ fresh (ss ++ (u ∷ [])) ts
fresh-append u ss [] = refl
fresh-append u ss (t ∷ ts) =
    let ih = fresh-append u ss ts in let p = is_in-append t u ss in rw p (ground arith)

-- What is among `ss` may be left out before.
fresh_again :
    (u : Bytes) (ss ts : List Bytes)
    → is_in u ss ≡ true
    → fresh ss (fresh (u ∷ []) ts) ≡ fresh ss ts
fresh_again u ss [] h = refl
fresh_again u ss (t ∷ ts) h =
    let ih = fresh_again u ss ts h in
    elim (Bool-cases (bytes_eq t u)) [
      | inl e ↦
          let p : t ≡ u = (bytes_eq_iff t u).0 e in
          let q : is_in t ss ≡ true = ap (λ x. is_in x ss) p ∙ h in rw (e, q) ih
      | inr e ↦ rw e (ap (λ r. if is_in t ss then r else t ∷ r) ih)
    ]

-- The groups once `order` and `by_type` are what they are.
abbrev group_with : ByType → List UnassignedIncident → Bytes → IncidentGroup
group_with by_type incs t = record { type = t; incidents = found (by_type t) ++ of_type t incs }

abbrev next_order : List Bytes → Bool → Bytes → List Bytes
next_order order b t = if b then order else order ++ (t ∷ [])

next_present :
    (by_type : ByType) (order : List Bytes) (inc : UnassignedIncident)
    → ((t : Bytes) → is_present (by_type t) ≡ is_in t order)
    → (t : Bytes)
    → is_present (append_to by_type inc t)
      ≡ is_in t (next_order order (is_present (by_type inc.type)) inc.type)
next_present by_type order inc h t = elim (Bool-cases (is_present (by_type inc.type))) [
  | inl p ↦ elim (Bool-cases (bytes_eq t inc.type)) [
    | inl e ↦
        let q : t ≡ inc.type = (bytes_eq_iff t inc.type).0 e in
        rw (p, e) (sym (ap (λ x. is_in x order) q ∙ (sym (h inc.type) ∙ p)))
    | inr e ↦ rw (p, e) (h t)
  ]
  | inr p ↦ elim (Bool-cases (bytes_eq t inc.type)) [
    | inl e ↦ rw (p, e, is_in-append t inc.type order, e) (ground arith)
    | inr e ↦ rw (p, e, is_in-append t inc.type order, e) (rw (h t) (ground arith))
  ]
]

next_types :
    (order : List Bytes) (b : Bool) (t : Bytes) (ts : List Bytes)
    → b ≡ is_in t order
    → next_order order b t ++ fresh (next_order order b t) ts
      ≡ order ++ fresh order (t ∷ fresh (t ∷ []) ts)
next_types order true t ts h =
    rw (sym h) (ap (λ r. order ++ r) (sym (fresh_again t order ts (sym h))))
next_types order false t ts h =
    rw (sym h)
      (append_assoc order (t ∷ []) _ ∙ ap (λ r. order ++ (t ∷ r)) (sym (fresh-append t order ts)))

next_group :
    (by_type : ByType) (inc : UnassignedIncident) (rest : List UnassignedIncident) (t : Bytes)
    → group_with (append_to by_type inc) rest t ≡ group_with by_type (inc ∷ rest) t
next_group by_type inc rest t = elim (Bool-cases (bytes_eq t inc.type)) [
  | inl e ↦ rw e (
      ap (λ r. record { type = t; incidents = r })
        (append_assoc (found (by_type t)) (inc ∷ []) (of_type t rest)))
  | inr e ↦ rw e refl
]

group_loop_lem :
    (incs : List UnassignedIncident) (order : List Bytes) (by_type : ByType)
    → ((t : Bytes) → is_present (by_type t) ≡ is_in t order)
    → group_loop incs order by_type
      ≡ map (group_with by_type incs) (order ++ fresh order (types_of incs))
unfolding group_loop
group_loop_lem [] order by_type h = rw (append-nil order) (
    ap (λ f. map f order)
      (fun_ext
        λ t. ap (λ r. record { type = t; incidents = r }) (sym (append-nil (found (by_type t))))))
group_loop_lem (inc ∷ rest) order by_type h =
    let b = is_present (by_type inc.type) in
    group_loop_lem rest (next_order order b inc.type) (append_to by_type inc)
      (next_present by_type order inc h)
    ∙ ap
        (λ f.
          map f
            (next_order order b inc.type ++ fresh (next_order order b inc.type) (types_of rest)))
        (fun_ext (next_group by_type inc rest))
    ∙ ap (map (group_with by_type (inc ∷ rest)))
        (next_types order b inc.type (types_of rest) (h inc.type))

fresh_none : (ts : List Bytes) → fresh [] ts ≡ ts
fresh_none [] = refl
fresh_none (t ∷ ts) = ap (λ r. t ∷ r) (fresh_none ts)

-- The group of a type holds the incidents of that type in their order.
abbrev pub group_in : List UnassignedIncident → Bytes → IncidentGroup
group_in incs t = record { type = t; incidents = of_type t incs }

-- There is one group for each type, in the order in which the types first occur, and it holds exactly
-- the incidents of its type, in their order.
pub group_by_type_lem :
    (incs : List UnassignedIncident) → group_by_type incs ≡ map (group_in incs) (types_of incs)
unfolding group_by_type
group_by_type_lem incs =
    group_loop_lem incs [] (λ t. none) (λ t. refl)
    ∙ ap (map (group_in incs)) (fresh_none (types_of incs))
