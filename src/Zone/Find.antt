-- ===== src/Zone/Find.antt =====
-- What `findZoneForFQDN` finds: the longest active zone that the host name lies in
-- (internal/activity/dns.go).
use hosting.Common.{
  ℕ, ◌+◌, ◌≤◌, ◌≡◌, ◌≢◌, refl, ap, sym, ◌∙◌, ◌⊎◌, inl, inr, true, false, Bytes, codes, Option, none,
  some, List, [], ◌∷◌, ◌++◌, join, length, length-append, Bool-cases, Option-cases, arith, ◌==◌,
  ==_iff, if◌then◌else◌,
}
use hosting.Common.TextLaws.{bytes_eq_iff}
use hosting.Common.Ascii.{split, cons_first}
use hosting.Common.Split.{join-split, split-ne-nil}
use hosting.Zone.Stores.{Zone, Stores, Server, active_zone}
use hosting.Zone.Auto.{candidates, first_zone, find_zone_for_fqdn}
use hosting.Zone.Runs.{Faultless, Runs, Runs-bind, Runs-pure, Runs-query}

-- One of the active zones has that name.
abbrev pub IsActive : List Zone → Bytes → Type 0
IsActive zs name = (z : Zone) × (active_zone name zs ≡ some z)

-- The name is the host name itself, or its end after a dot.
abbrev pub LiesIn : Bytes → Bytes → Type 0
LiesIn fqdn name = (fqdn ≡ name) ⊎ ((front : Bytes) × (fqdn ≡ front ++ (b'.' ∷ name)))

-- The name of an active zone among those that lie so, and none of these is longer; or the empty
-- text, and none of these is active.
abbrev pub IsLongest : List Zone → (Bytes → Type 0) → Bytes → Type 0
IsLongest zs Lies found =
    (IsActive zs found
      × Lies found
      × ((name : Bytes) → Lies name → IsActive zs name → length name ≤ length found))
    ⊎ ((found ≡ []) × ((name : Bytes) → Lies name → active_zone name zs ≡ none))

active_zone-name :
    (name : Bytes) (zs : List Zone) (z : Zone) → active_zone name zs ≡ some z → z.name ≡ name
unfolding active_zone
active_zone-name name [] z h = cc
active_zone-name name (x ∷ zs) z h =
    let ih = active_zone-name name zs z in ground (arith, bytes_eq_iff x.name name)

unfoldable name_or : Option Zone → Bytes → Bytes
name_or none rest = rest
name_or (some z) rest = z.name

-- The first active zone of the names, without the statements.
unfoldable pick : List Zone → List Bytes → Bytes
pick zs [] = []
pick zs (c ∷ cs) = name_or (active_zone c zs) (pick zs cs)

-- The ends of a text after each of its dots.
unfoldable ends : Bytes → List Bytes
ends [] = []
ends (c ∷ s) = if c == b'.' then s ∷ ends s else ends s

After : Bytes → Bytes → Type 0
After s name = (front : Bytes) × (s ≡ front ++ (b'.' ∷ name))

parts_of : (parts : List Bytes) → parts ≢ [] → (p : Bytes) × (ps : List Bytes) × (parts ≡ p ∷ ps)
parts_of [] h = absurd (h refl)
parts_of (p ∷ ps) h = (p, ps, refl)

candidates-cons :
    (s p : Bytes) (ps : List Bytes)
    → split b'.' s ≡ p ∷ ps
    → candidates (p ∷ ps) ≡ s ∷ candidates ps
unfolding candidates
candidates-cons s p ps e =
    ap (λ t. t ∷ candidates ps) (ap (join (codes ".")) (sym e) ∙ join-split b'.' s)

candidates-tail : (s p : Bytes) (ps : List Bytes) → split b'.' s ≡ p ∷ ps → candidates ps ≡ ends s
unfolding candidates ends split
candidates-tail [] p ps h = let e : ps ≡ [] = cc in rw e refl
candidates-tail (c ∷ s) p ps h =
    let (q, qs, e) = parts_of (split b'.' s) (split-ne-nil b'.' s) in
    elim (Bool-cases (c == b'.')) [
      | inl y ↦
          let h' : [] ∷ split b'.' s ≡ p ∷ ps = rw y at h in
          let t : ps ≡ q ∷ qs = cc in
          rw (t, y) (candidates-cons s q qs e ∙ ap (λ x. s ∷ x) (candidates-tail s q qs e))
      | inr n ↦
          let h' : cons_first c (q ∷ qs) ≡ p ∷ ps = rw (n, e) at h in
          let t : ps ≡ qs = cc in rw (t, n) (candidates-tail s q qs e)
    ]

candidates-split : (s : Bytes) → candidates (split b'.' s) ≡ s ∷ ends s
candidates-split s =
    let (q, qs, e) = parts_of (split b'.' s) (split-ne-nil b'.' s) in
    rw e (candidates-cons s q qs e ∙ ap (λ x. s ∷ x) (candidates-tail s q qs e))

After-length : (s name : Bytes) → After s name → length name + 1 ≤ length s
unfolding After
After-length s name (front, e) = omega (arith, ap length e, length-append front (b'.' ∷ name))

-- One more name, longer than the others, in front of the search.
pick-cons :
    (zs : List Zone) (c : Bytes) (cs : List Bytes) (Lies Rest : Bytes → Type 0)
    → Lies c
    → ((name : Bytes) → Rest name → Lies name)
    → ((name : Bytes) → Lies name → (name ≡ c) ⊎ Rest name)
    → ((name : Bytes) → Rest name → length name ≤ length c)
    → IsLongest zs Rest (pick zs cs)
    → IsLongest zs Lies (pick zs (c ∷ cs))
unfolding pick name_or
pick-cons zs c cs Lies Rest here there split_lies short ih =
    elim (Option-cases (active_zone c zs)) [
      | inr (z, e) ↦
          let n = active_zone-name c zs z e in
          rw (e, n)
            (inl (
              (z, e),
              here,
              λ name lies active. elim (split_lies name lies) [
                | inl q ↦ rw q (omega arith)
                | inr r ↦ short name r
              ],
            ))
      | inl e ↦ rw e (elim ih [
        | inl (active, rest, longest) ↦ inl (
          active,
          there _ rest,
          λ name lies (z, a). elim (split_lies name lies) [
            | inl q ↦ absurd (cc)
            | inr r ↦ longest name r (z, a)
          ],
        )
        | inr (nil, none_active) ↦ inr (
          nil,
          λ name lies. elim (split_lies name lies) [ inl q ↦ rw q e | inr r ↦ none_active name r ],
        )
      ])
    ]

After-dot :
    (c : ℕ) (s name : Bytes) → (c == b'.') ≡ true → After (c ∷ s) name → (name ≡ s) ⊎ After s name
unfolding After
After-dot c s name y ([], e) = inl (cc)
After-dot c s name y (d ∷ front, e) = inr (front, cc)

After-other : (c : ℕ) (s name : Bytes) → (c == b'.') ≡ false → After (c ∷ s) name → After s name
unfolding After
After-other c s name n ([], e) = let q : c ≡ b'.' = cc in absurd (ground (arith, ==_iff c b'.'))
After-other c s name n (d ∷ front, e) = (front, cc)

After-cons : (c : ℕ) (s name : Bytes) → After s name → After (c ∷ s) name
unfolding After
After-cons c s name (front, e) = (c ∷ front, ap (λ t. c ∷ t) e)

After-here : (c : ℕ) (s : Bytes) → (c == b'.') ≡ true → After (c ∷ s) s
unfolding After
After-here c s y = ([], ap (λ d. d ∷ s) ((==_iff c b'.').0 y))

After-nil : (name : Bytes) → ¬ (After [] name)
unfolding After
After-nil name ([], e) = cc
After-nil name (d ∷ front, e) = cc

IsLongest-weaken :
    (zs : List Zone) (Lies Lies' : Bytes → Type 0) (found : Bytes)
    → ((name : Bytes) → Lies name → Lies' name)
    → ((name : Bytes) → Lies' name → Lies name)
    → IsLongest zs Lies found
    → IsLongest zs Lies' found
IsLongest-weaken zs Lies Lies' found f g (inl (a, l, longest)) =
    inl (a, f found l, λ name l'. longest name (g name l'))
IsLongest-weaken zs Lies Lies' found f g (inr (e, h)) = inr (e, λ name l'. h name (g name l'))

first_zone-Runs :
    (srv : Server)
    → Faultless srv
    → (cs : List Bytes) (s : Stores) → Runs (first_zone srv cs) s (pick s.zones cs) s
unfolding first_zone pick name_or
first_zone-Runs srv quiet [] s = Runs-pure [] s
first_zone-Runs srv quiet (c ∷ cs) s =
    Runs-bind _ (Runs-query srv quiet _ s) (elim (Option-cases (active_zone c s.zones)) [
      | inl e ↦ rw e (first_zone-Runs srv quiet cs s)
      | inr (z, e) ↦ rw e (Runs-pure z.name s)
    ])

After-LiesIn : (fqdn name : Bytes) → After fqdn name → LiesIn fqdn name
unfolding After
After-LiesIn fqdn name a = inr a

LiesIn-cases : (fqdn name : Bytes) → LiesIn fqdn name → (name ≡ fqdn) ⊎ After fqdn name
unfolding After
LiesIn-cases fqdn name (inl e) = inl (sym e)
LiesIn-cases fqdn name (inr a) = inr a

pick-ends : (zs : List Zone) (s : Bytes) → IsLongest zs (After s) (pick zs (ends s))
unfolding ends pick
pick-ends zs [] = inr (refl, λ name a. absurd (After-nil name a))
pick-ends zs (c ∷ s) = elim (Bool-cases (c == b'.')) [
  | inl y ↦ rw y (
      pick-cons zs s (ends s) (After (c ∷ s)) (After s) (After-here c s y) (After-cons c s)
        (λ name. After-dot c s name y) (λ name a. omega (arith, After-length s name a))
        (pick-ends zs s))
  | inr n ↦ rw n (
      IsLongest-weaken zs (After s) (After (c ∷ s)) _ (After-cons c s)
        (λ name. After-other c s name n) (pick-ends zs s))
]

-- Where no statement fails, `findZoneForFQDN` gives the name of an active zone that is the host name
-- itself or its end after a dot, and no such zone has a longer name; or the empty text, and there is
-- no such zone.
pub find_zone-IsLongest :
    (srv : Server)
    → Faultless srv
    → (fqdn : Bytes) (s : Stores)
    → (found : Bytes) × Runs (find_zone_for_fqdn srv fqdn) s found s
      × IsLongest s.zones (LiesIn fqdn) found
unfolding find_zone_for_fqdn
find_zone-IsLongest srv quiet fqdn s = (
  pick s.zones (fqdn ∷ ends fqdn),
  rw (candidates-split fqdn) (first_zone-Runs srv quiet (fqdn ∷ ends fqdn) s),
  pick-cons s.zones fqdn (ends fqdn) (LiesIn fqdn) (After fqdn) (inl refl)
      (λ name a. After-LiesIn fqdn name a) (λ name lies. LiesIn-cases fqdn name lies)
      (λ name a. omega (arith, After-length fqdn name a)) (pick-ends s.zones fqdn),
)
