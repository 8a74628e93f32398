-- ===== src/Zone/Rows.antt =====
-- A custom record's own row takes no part in the override: what the steps of its workflows do to the
-- row leaves the auto records as they are (internal/workflow/zone_record.go).
use hosting.Common.{
  ◌≡◌, refl, inl, inr, true, false, Bytes, is_text, none, List, [], ◌∷◌, All, Bool-cases, arith,
}
use hosting.Zone.Stores.{Zone, ZoneRecord}
use hosting.Zone.PowerDns.{remove}
use hosting.Zone.Override.{is_auto, auto_recs}
use hosting.Zone.Records.{update_rows, has_id, set_status}

-- The rows with that id are not managed by the platform.
abbrev pub NotAuto : Bytes → List ZoneRecord → Type 0
NotAuto id = All (λ r. has_id id r ≡ true → is_text "auto" r.managed_by ≡ false)

set_status-kept :
    (id status : Bytes) (r : ZoneRecord)
    → ((set_status id status none r).managed_by ≡ r.managed_by)
      × ((set_status id status none r).id ≡ r.id)
set_status-kept id status r = elim (Bool-cases (is_text "active" status)) [
  | inl y ↦ rw y (refl, refl)
  | inr n ↦ rw n (refl, refl)
]

not_auto :
    (name kind : Bytes) (r : ZoneRecord)
    → is_text "auto" r.managed_by ≡ false
    → is_auto name kind r ≡ false
unfolding is_auto
not_auto name kind r h = ground arith

module _ (id status : Bytes) where
  pub NotAuto-update :
      (rs : List ZoneRecord)
      → NotAuto id rs
      → NotAuto id (update_rows (has_id id) (set_status id status none) rs)
  unfolding update_rows
  NotAuto-update [] h = tt
  NotAuto-update (r ∷ rs) (h, hs) = elim (Bool-cases (has_id id r)) [
    | inl y ↦ rw y ((λ e. rw ((set_status-kept id status r).0) (h y)), NotAuto-update rs hs)
    | inr n ↦ rw n (h, NotAuto-update rs hs)
  ]

  pub auto_recs-update :
      (name kind : Bytes) (zs : List Zone) (rs : List ZoneRecord)
      → NotAuto id rs
      → auto_recs name kind zs (update_rows (has_id id) (set_status id status none) rs)
        ≡ auto_recs name kind zs rs
  unfolding update_rows auto_recs
  auto_recs-update name kind zs [] h = refl
  auto_recs-update name kind zs (r ∷ rs) (h, hs) = elim (Bool-cases (has_id id r)) [
    | inl y ↦
        rw
          (
            y,
            not_auto name kind r (h y),
            not_auto name kind (set_status id status none r)
                (rw ((set_status-kept id status r).0) (h y)),
          )
          (auto_recs-update name kind zs rs hs)
    | inr n ↦ rw (n, auto_recs-update name kind zs rs hs) refl
  ]

  -- After a step on its row, the removal of the row gives the same rows.
  pub remove-update :
      (rs : List ZoneRecord)
      → remove (has_id id) (update_rows (has_id id) (set_status id status none) rs)
        ≡ remove (has_id id) rs
  unfolding update_rows remove
  remove-update [] = refl
  remove-update (r ∷ rs) = elim (Bool-cases (has_id id r)) [
    | inl y ↦
        let y' : has_id id (set_status id status none r) ≡ true =
          rw ((set_status-kept id status r).1) y in
        rw (y, y') (remove-update rs)
    | inr n ↦ rw (n, n, remove-update rs) refl
  ]

pub auto_recs-remove :
    (id name kind : Bytes) (zs : List Zone) (rs : List ZoneRecord)
    → NotAuto id rs
    → auto_recs name kind zs (remove (has_id id) rs) ≡ auto_recs name kind zs rs
unfolding remove auto_recs
auto_recs-remove id name kind zs [] h = refl
auto_recs-remove id name kind zs (r ∷ rs) (h, hs) = elim (Bool-cases (has_id id r)) [
  | inl y ↦ rw (y, not_auto name kind r (h y)) (auto_recs-remove id name kind zs rs hs)
  | inr n ↦ rw (n, auto_recs-remove id name kind zs rs hs) refl
]
