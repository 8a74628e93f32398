-- ===== src/Investigation/Followers.antt =====
-- What the incident queue does with its groups.
use hosting.Common.{
  ℕ, ◌+◌, Bool, true, false, Bytes, bytes_eq, is_text, ◌≡◌, refl, ◌∙◌, ap, some, List, [], ◌∷◌,
  ◌++◌, map, is_empty, not, if◌then◌else◌, arith, Bool-cases, ◌⊎◌, inl, inr,
}
use hosting.Common.Result.{Result, ok, err}
use hosting.Common.TextLaws.{bytes_eq_iff}
use hosting.Investigation.Turns.{Investigated}
use hosting.Investigation.Queue.{
  UnassignedIncident, IncidentGroup, QueueCall, claim, investigate, Workers, was_claimed, hints_of,
  claim_followers, process_incident_group, process_groups, process_incident_queue_workflow,
}
use hosting.Investigation.Grouping.{of_type, is_in, fresh, types_of, group_in, group_by_type_lem}

is_in-fresh :
    (t : Bytes) (seen ts : List Bytes) → is_in t (fresh seen ts) ≡ true → is_in t ts ≡ true
is_in-fresh t seen [] h = h
is_in-fresh t seen (s ∷ ts) h = let ih = is_in-fresh t seen ts in ground arith

-- A type that occurs has incidents.
of_type_inhabited :
    (t : Bytes) (incs : List UnassignedIncident)
    → is_in t (types_of incs) ≡ true
    → is_empty (of_type t incs) ≡ false
of_type_inhabited t [] h = cc
of_type_inhabited t (i ∷ is) h = elim (Bool-cases (bytes_eq t i.type)) [
  | inl e ↦ rw e refl
  | inr e ↦
      let p : is_in t (fresh (i.type ∷ []) (types_of is)) ≡ true = ground arith in
      rw e (of_type_inhabited t is (is_in-fresh t (i.type ∷ []) (types_of is) p))
]

-- A claim that is answered by false or by an error.
abbrev pub Refused : Result Bool → Type 0
Refused r = (r ≡ ok false) ⊎ ((e : Bytes) × (r ≡ err e))

refused : (r : Result Bool) → was_claimed r ≡ false → Refused r
refused (ok b) h = inl (ap ok h)
refused (err e) h = inr (e, refl)

granted : (r : Result Bool) → was_claimed r ≡ true → r ≡ ok true
granted (ok b) h = ap ok h
granted (err e) h = cc

module _ (w : Workers) (prompt : Bytes) where
  -- What a group calls for its leader, how many calls these are, and the hints it leaves.
  pub data Led (leader : Bytes) : List QueueCall → ℕ → Bytes → Type 0 where
    not_claimed : Refused (w.claimed 0 leader) → Led leader (claim leader ∷ []) 1 []
    failed :
        {e : Bytes}
        → w.claimed 0 leader ≡ ok true
        → w.investigated 1 leader ≡ err e
        → Led leader (claim leader ∷ investigate leader prompt [] ∷ []) 2 []
    not_resolved :
        {r : Investigated}
        → w.claimed 0 leader ≡ ok true
        → w.investigated 1 leader ≡ ok r
        → is_text "resolved" r.outcome ≡ false
        → Led leader (claim leader ∷ investigate leader prompt [] ∷ []) 2 []
    resolved :
        {r : Investigated}
        → w.claimed 0 leader ≡ ok true
        → w.investigated 1 leader ≡ ok r
        → is_text "resolved" r.outcome ≡ true
        → Led leader (claim leader ∷ investigate leader prompt [] ∷ []) 2 r.resolution_hint

  -- What it calls for its followers, in their order, from the call of that number on.
  pub data Followed (hints : Bytes) : ℕ → List UnassignedIncident → List QueueCall → Type 0 where
    no_followers : {t : ℕ} → Followed hints t [] []
    passed_over :
        {t : ℕ} {f : UnassignedIncident} {fs : List UnassignedIncident} {calls : List QueueCall}
        → Refused (w.claimed t f.id)
        → Followed hints (t + 1) fs calls
        → Followed hints t (f ∷ fs) (claim f.id ∷ calls)
    started :
        {t : ℕ} {f : UnassignedIncident} {fs : List UnassignedIncident} {calls : List QueueCall}
        → w.claimed t f.id ≡ ok true
        → Followed hints (t + 2) fs calls
        → Followed hints t (f ∷ fs) (claim f.id ∷ investigate f.id prompt hints ∷ calls)

  -- The calls of a group: those for its first incident, then those for the others.
  abbrev pub GroupCalls : List UnassignedIncident → List QueueCall → Type 0
  GroupCalls [] calls = ⊥
  GroupCalls (leader ∷ followers) calls =
      (front : List QueueCall) × (t : ℕ) × (hints : Bytes) × (back : List QueueCall) × Led leader.id
        front t hints
      × Followed hints t followers back
      × (calls ≡ front ++ back)

  claim_followers-Followed :
      (hints : Bytes) (t : ℕ) (fs : List UnassignedIncident)
      → Followed hints t fs (claim_followers w prompt hints t fs)
  unfolding claim_followers
  claim_followers-Followed hints t [] = no_followers
  claim_followers-Followed hints t (f ∷ fs) = elim (Bool-cases (was_claimed (w.claimed t f.id))) [
    | inl e ↦
        rw e (started (granted (w.claimed t f.id) e) (claim_followers-Followed hints (t + 2) fs))
    | inr e ↦
        rw e
          (passed_over (refused (w.claimed t f.id) e) (claim_followers-Followed hints (t + 1) fs))
  ]

  hints_of-Led :
      (leader : Bytes) (r : Result Investigated)
      → w.claimed 0 leader ≡ ok true
      → w.investigated 1 leader ≡ r
      → Led leader (claim leader ∷ investigate leader prompt [] ∷ []) 2 (hints_of r)
  hints_of-Led leader (err e) c h = failed c h
  hints_of-Led leader (ok r) c h = elim (Bool-cases (is_text "resolved" r.outcome)) [
    | inr e ↦ rw e (not_resolved c h e)
    | inl e ↦ rw (e, given r.resolution_hint) (resolved c h e)
  ]
    where
      given : (hint : Bytes) → (if not (is_empty hint) then hint else []) ≡ hint
      given [] = refl
      given (b ∷ bs) = refl

  -- A group with a leader makes its calls, in this order: the claim of the leader; where that is
  -- granted, the leader's investigation without hints; for each follower its claim and, right behind it
  -- and just where it is granted, the follower's investigation. The hints of all followers are the
  -- resolution hint of the leader where it was investigated and resolved, and empty otherwise.
  pub process_incident_group_hints :
      (type : Bytes) (leader : UnassignedIncident) (followers : List UnassignedIncident)
      → (calls : List QueueCall) × (process_incident_group w prompt
            (record { type = type; incidents = leader ∷ followers })
          ≡ some calls)
        × GroupCalls (leader ∷ followers) calls
  unfolding process_incident_group
  process_incident_group_hints type leader followers =
      elim (Bool-cases (was_claimed (w.claimed 0 leader.id))) [
        | inl e ↦
            let r = w.investigated 1 leader.id in
            (
              _,
              rw e refl,
              (
                _,
                2,
                hints_of r,
                claim_followers w prompt (hints_of r) 2 followers,
                hints_of-Led leader.id r (granted (w.claimed 0 leader.id) e) refl,
                claim_followers-Followed (hints_of r) 2 followers,
                refl,
              ),
            )
        | inr e ↦ (
          _,
          rw e refl,
          (
            _,
            1,
            [],
            claim_followers w prompt [] 1 followers,
            not_claimed (refused (w.claimed 0 leader.id) e),
            claim_followers-Followed [] 1 followers,
            refl,
          ),
        )
      ]

  process_incident_group_runs :
      (type : Bytes) (incs : List UnassignedIncident)
      → is_empty incs ≡ false
      → (calls : List QueueCall) × (process_incident_group w prompt
            (record { type = type; incidents = incs })
          ≡ some calls)
        × GroupCalls incs calls
  process_incident_group_runs type [] h = cc
  process_incident_group_runs type (i ∷ is) h = process_incident_group_hints type i is

  process_groups_cons :
      (g : IncidentGroup) (gs : List IncidentGroup) {calls : List QueueCall}
      {rest : List (List QueueCall)}
      → process_incident_group w prompt g ≡ some calls
      → process_groups w prompt gs ≡ some rest
      → process_groups w prompt (g ∷ gs) ≡ some (calls ∷ rest)
  unfolding process_groups
  process_groups_cons g gs p q = rw (process_groups, p, q) refl

  -- For each type the calls of the group of its incidents.
  abbrev pub EachGroup : List UnassignedIncident → List Bytes → List (List QueueCall) → Type 0
  EachGroup incs [] [] = Unit
  EachGroup incs [] (calls ∷ rest) = ⊥
  EachGroup incs (t ∷ ts) [] = ⊥
  EachGroup incs (t ∷ ts) (calls ∷ rest) =
      GroupCalls (of_type t incs) calls × EachGroup incs ts rest

  process_groups_run :
      (incs : List UnassignedIncident) (ts : List Bytes)
      → ((t : Bytes) → is_in t ts ≡ true → is_empty (of_type t incs) ≡ false)
      → (calls : List (List QueueCall)) × (process_groups w prompt (map (group_in incs) ts)
          ≡ some calls)
        × EachGroup incs ts calls
  unfolding process_groups
  process_groups_run incs [] h = ([], refl, tt)
  process_groups_run incs (t ∷ ts) h =
      let e : bytes_eq t t ≡ true = (bytes_eq_iff t t).1 refl in
      let (calls, p, made) = process_incident_group_runs t (of_type t incs) (h t (rw e refl)) in
      let (rest, q, others) = process_groups_run incs ts (λ s i. h s (ground (arith, i))) in
      (calls ∷ rest, process_groups_cons (group_in incs t) _ p q, (made, others))

-- Whatever is answered, a run of the queue whose two reads succeed makes, for each type of the
-- incidents in the order of their first occurrence, the calls of one group, that of all the incidents of
-- the type in their order: the first is claimed and, where granted, investigated; then each other one is
-- claimed and, right behind a granted claim only, investigated with the first one's resolution hint if it
-- was resolved, without hints otherwise. No group is without a leader.
pub process_incident_queue_workflow_runs :
    (w : Workers) (prompt : Bytes) (incs : List UnassignedIncident)
    → (calls : List (List QueueCall)) × (process_incident_queue_workflow w (ok prompt) (ok incs)
        ≡ ok (some calls))
      × EachGroup w prompt incs (types_of incs) calls
unfolding process_incident_queue_workflow
process_incident_queue_workflow_runs w prompt [] = ([], refl, tt)
process_incident_queue_workflow_runs w prompt (i ∷ is) =
    let (calls, p, made) =
      process_groups_run w prompt (i ∷ is) (types_of (i ∷ is))
        (λ t. of_type_inhabited t (i ∷ is)) in
    (calls, ap ok (ap (process_groups w prompt) (group_by_type_lem (i ∷ is)) ∙ p), made)
