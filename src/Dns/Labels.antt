-- ===== src/Dns/Labels.antt =====
-- What `isValidLabel` and `isValidHostname` accept, against a description of DNS names.
use hosting.Common.{
  ℕ, ◌≤◌, ◌≡◌, ◌≢◌, refl, ap, ◌∙◌, ◌↔◌, ◌⊎◌, inl, inr, true, false, List, [], ◌∷◌, ◌++◌, Bytes,
  length, all, All, is_empty, join, arith, Bool-cases, ◌==◌, ==_iff,
}
use hosting.Common.Ascii.{split}
use hosting.Common.Split.{Lacks, join-split, split-join, split-ne-nil}
use hosting.Dns.Hostname.{
  hyphen, dot, is_label_byte, ends_with, is_valid_label, trim_dot, is_valid_hostname,
}

-- Letters, digits, the hyphen and the underscore.
abbrev pub IsLabelByte : ℕ → Type 0
IsLabelByte c =
    ((b'a' ≤ c) × (c ≤ b'z'))
    ⊎ ((b'A' ≤ c) × (c ≤ b'Z'))
    ⊎ ((b'0' ≤ c) × (c ≤ b'9'))
    ⊎ (c ≡ hyphen)
    ⊎ (c ≡ b'_')

pub record IsLabel (p : Bytes) : Type 0 where
  pub not_empty : 1 ≤ length p
  pub short : length p ≤ 63
  pub no_first_hyphen : (s : Bytes) → p ≢ hyphen ∷ s
  pub no_last_hyphen : (s : Bytes) → p ≢ s ++ (hyphen ∷ [])
  pub bytes : All IsLabelByte p

-- Labels, joined by dots, with or without a last dot, in at most 253 bytes.
pub record IsHostname (s : Bytes) : Type 0 where
  pub labels : List Bytes
  pub some_label : labels ≢ []
  pub valid : All IsLabel labels
  pub short : length s ≤ 253
  pub joined : (s ≡ join (dot ∷ []) labels) ⊎ (s ≡ join (dot ∷ []) labels ++ (dot ∷ []))

label_char_iff : (c : ℕ) → (is_label_byte c ≡ true) ↔ IsLabelByte c
unfolding is_label_byte
label_char_iff c = (λ h. ground arith, λ h. ground arith)

all_bytes_iff : (p : Bytes) → (all is_label_byte p ≡ true) ↔ All IsLabelByte p
all_bytes_iff [] = (λ h. tt, λ h. refl)
all_bytes_iff (c ∷ p) =
    let (f, g) = all_bytes_iff p in
    let (f', g') = label_char_iff c in
    (
      λ h. elim (Bool-cases (is_label_byte c)) [
        | inl y ↦ (f' y, f (rw y at h))
        | inr n ↦ absurd (cc (rw n at h))
      ],
      λ h. rw (g' h.0) (g h.1),
    )

ends_with-append : (b : ℕ) (s : Bytes) → ends_with b (s ++ (b ∷ [])) ≡ true
unfolding ends_with
ends_with-append b [] = ground (arith, ==_iff b b)
ends_with-append b (c ∷ []) = ground (arith, ==_iff b b)
ends_with-append b (c ∷ d ∷ s) = ends_with-append b (d ∷ s)

ends_with_sound : (b : ℕ) (p : Bytes) → ends_with b p ≡ true → (s : Bytes) × (p ≡ s ++ (b ∷ []))
unfolding ends_with
ends_with_sound b [] h = cc
ends_with_sound b (c ∷ []) h = ([], ap (λ x. x ∷ []) ((==_iff c b).0 h))
ends_with_sound b (c ∷ d ∷ p) h =
    let (s, e) = ends_with_sound b (d ∷ p) h in (c ∷ s, ap (λ r. c ∷ r) e)

-- A label passes exactly if it has 1 to 63 bytes, all of them letters, digits, hyphens or
-- underscores, and neither begins nor ends with a hyphen.
pub is_valid_label_iff : (p : Bytes) → (is_valid_label p ≡ true) ↔ IsLabel p
unfolding is_valid_label
is_valid_label_iff [] = (λ h. cc, λ v. absurd (omega (arith, v.not_empty)))
is_valid_label_iff (c ∷ p) = (
  λ h. record {
    not_empty = omega arith;
    short = ground arith;
    no_first_hyphen = λ s e. ground (arith, ==_iff c hyphen);
    no_last_hyphen = λ s e. not_end s e h;
    bytes = (all_bytes_iff (c ∷ p)).0 (all_of h);
  },
  λ v.
      accept v.short (v.no_first_hyphen p) ((all_bytes_iff (c ∷ p)).1 v.bytes)
        (λ h. let (s, e) = ends_with_sound hyphen (c ∷ p) h in v.no_last_hyphen s e),
)
  where
    all_of : is_valid_label (c ∷ p) ≡ true → all is_label_byte (c ∷ p) ≡ true
    all_of h = ground arith

    not_end : (s : Bytes) → c ∷ p ≡ s ++ (hyphen ∷ []) → is_valid_label (c ∷ p) ≡ true → ⊥
    not_end s e h =
        let x : ends_with hyphen (c ∷ p) ≡ true = rw e (ends_with-append hyphen s) in ground arith

    accept :
        length (c ∷ p) ≤ 63
        → c ∷ p ≢ hyphen ∷ p
        → all is_label_byte (c ∷ p) ≡ true
        → (ends_with hyphen (c ∷ p) ≡ true → ⊥)
        → is_valid_label (c ∷ p) ≡ true
    accept len first ok last = elim (Bool-cases (ends_with hyphen (c ∷ p))) [
      | inl y ↦ absurd (last y)
      | inr n ↦ elim (Bool-cases (c == hyphen)) [
        | inl e ↦ absurd (first (ap (λ x. x ∷ p) ((==_iff c hyphen).0 e)))
        | inr ne ↦ ground arith
      ]
    ]

trim_dot-append : (s : Bytes) → trim_dot (s ++ (dot ∷ [])) ≡ s
unfolding trim_dot
trim_dot-append [] = refl
trim_dot-append (c ∷ []) = refl
trim_dot-append (c ∷ d ∷ s) = ap (λ r. c ∷ r) (trim_dot-append (d ∷ s))

trim_dot_cases : (s : Bytes) → (s ≡ trim_dot s) ⊎ (s ≡ trim_dot s ++ (dot ∷ []))
unfolding trim_dot
trim_dot_cases [] = inl refl
trim_dot_cases (c ∷ []) = elim (Bool-cases (c == dot)) [
  | inl y ↦ inr (rw y (ap (λ x. x ∷ []) ((==_iff c dot).0 y)))
  | inr n ↦ inl (rw n)
]
trim_dot_cases (c ∷ d ∷ s) = elim (trim_dot_cases (d ∷ s)) [
  | inl e ↦ inl (ap (λ r. c ∷ r) e)
  | inr e ↦ inr (ap (λ r. c ∷ r) e)
]

trim_dot_id : (s : Bytes) → ends_with dot s ≡ false → trim_dot s ≡ s
unfolding trim_dot ends_with
trim_dot_id [] h = refl
trim_dot_id (c ∷ []) h = rw h
trim_dot_id (c ∷ d ∷ s) h = ap (λ r. c ∷ r) (trim_dot_id (d ∷ s) h)

IsLabelByte-Lacks : (p : Bytes) → All IsLabelByte p → Lacks dot p
IsLabelByte-Lacks [] h = tt
IsLabelByte-Lacks (c ∷ p) h = (λ e. ground arith, IsLabelByte-Lacks p h.1)

Lacks-ends_with : (b : ℕ) (p : Bytes) → Lacks b p → ends_with b p ≡ false
unfolding ends_with
Lacks-ends_with b [] h = refl
Lacks-ends_with b (c ∷ []) h = ground (arith, h.0, ==_iff c b)
Lacks-ends_with b (c ∷ d ∷ p) h = Lacks-ends_with b (d ∷ p) h.1

ends_with-append_cons :
    (b : ℕ) (p : Bytes) (d c : ℕ) (s : Bytes) → ends_with b (p ++ (d ∷ c ∷ s)) ≡ ends_with b (c ∷ s)
unfolding ends_with
ends_with-append_cons b [] d c s = refl
ends_with-append_cons b (x ∷ []) d c s = refl
ends_with-append_cons b (x ∷ y ∷ p) d c s = ends_with-append_cons b (y ∷ p) d c s

-- Joined labels are not empty and do not end in a dot.
joined_shape :
    (ls : List Bytes)
    → ls ≢ []
    → All IsLabel ls
    → (c : ℕ) × (s : Bytes) × (join (dot ∷ []) ls ≡ c ∷ s)
      × (ends_with dot (join (dot ∷ []) ls) ≡ false)
joined_shape [] n v = absurd (n refl)
joined_shape ([] ∷ ls) n v = absurd (omega (arith, v.0.not_empty))
joined_shape ((c ∷ p) ∷ []) n v =
    (c, p, refl, Lacks-ends_with dot (c ∷ p) (IsLabelByte-Lacks (c ∷ p) v.0.bytes))
joined_shape ((c ∷ p) ∷ q ∷ ls) n v =
    let (d, s, e, h) = joined_shape (q ∷ ls) (λ x. cc) v.1 in
    (
      c,
      p ++ (dot ∷ join (dot ∷ []) (q ∷ ls)),
      refl,
      rw e (ends_with-append_cons dot (c ∷ p) dot d s ∙ (rw e at h)),
    )

all_labels_iff : (ls : List Bytes) → (all is_valid_label ls ≡ true) ↔ All IsLabel ls
all_labels_iff [] = (λ h. tt, λ h. refl)
all_labels_iff (p ∷ ls) =
    let (f, g) = all_labels_iff ls in
    let (f', g') = is_valid_label_iff p in
    (
      λ h. elim (Bool-cases (is_valid_label p)) [
        | inl y ↦ (f' y, f (rw y at h))
        | inr n ↦ absurd (cc (rw n at h))
      ],
      λ h. rw (g' h.0) (g h.1),
    )

labels-Lacks : (ls : List Bytes) → All IsLabel ls → All (Lacks dot) ls
labels-Lacks [] h = tt
labels-Lacks (p ∷ ls) h = (IsLabelByte-Lacks p h.0.bytes, labels-Lacks ls h.1)

-- Without its last dot a hostname is its labels joined, and it is not empty.
trim_hostname :
    (s : Bytes) (h : IsHostname s)
    → (trim_dot s ≡ join (dot ∷ []) h.labels)
      × (is_empty (trim_dot s) ≡ false)
      × (is_empty s ≡ false)
trim_hostname s h =
    let (c, t, e, no_dot) = joined_shape h.labels h.some_label h.valid in
    elim h.joined [
      | inl p ↦ (
        rw p (trim_dot_id (join (dot ∷ []) h.labels) no_dot),
        rw (p, trim_dot_id (join (dot ∷ []) h.labels) no_dot, e) refl,
        rw (p, e) refl,
      )
      | inr p ↦ (
        rw p (trim_dot-append (join (dot ∷ []) h.labels)),
        rw (p, trim_dot-append (join (dot ∷ []) h.labels), e) refl,
        rw (p, e) refl,
      )
    ]

is_valid_hostname_sound : (s : Bytes) → is_valid_hostname s ≡ true → IsHostname s
unfolding is_valid_hostname
is_valid_hostname_sound s h = record {
  labels = split dot (trim_dot s);
  some_label = split-ne-nil dot (trim_dot s);
  valid = (all_labels_iff (split dot (trim_dot s))).0 (ground arith);
  short = ground arith;
  joined = rw join-split (trim_dot_cases s);
}

is_valid_hostname_complete : (s : Bytes) → IsHostname s → is_valid_hostname s ≡ true
unfolding is_valid_hostname
is_valid_hostname_complete s h =
    let (t, ne, ne') = trim_hostname s h in
    let ok : all is_valid_label (split dot (trim_dot s)) ≡ true =
      rw (t, split-join dot h.labels h.some_label (labels-Lacks h.labels h.valid))
        ((all_labels_iff h.labels).1 h.valid) in
    let short = h.short in rw (ne', ne, ok) (ground arith)

-- A hostname passes exactly if it is a nonempty list of valid labels joined by dots, with or without
-- a last dot, in at most 253 bytes, the last dot counted.
pub is_valid_hostname_iff : (s : Bytes) → (is_valid_hostname s ≡ true) ↔ IsHostname s
is_valid_hostname_iff s = (is_valid_hostname_sound s, is_valid_hostname_complete s)
