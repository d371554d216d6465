-- ===== src/Promo/Admin.antt =====
-- The invariant of the coupon table under `create_promo`, `update_promo` and `delete_promo` of
-- app/services/promo_service.py.
use mathlib.Core.Path.{subst}
use store_evix.Common.{
  ℕ, ◌≡◌, ◌≢◌, refl, false, none, some, List, String, arith, str_eq, str_eq_iff, inl, inr,
  Option-cases, Bool-cases,
}
use store_evix.Common.Table.{find, find_key, find-remove}
use store_evix.Common.Session.{Result, ok, err, run_request}
use store_evix.Common.Patch.{Patch, unset, assign, patched}
use store_evix.Models.Promo.{PromoCode}
use store_evix.Models.Db.{Db}
use store_evix.Promo.Defs.{
  PromoError, not_found, get_by_code, promo_id, create_promo, PromoUpdate, apply_changes,
  code_clash, update_promo, delete_promo,
}
use store_evix.Promo.Rows.{
  IsValid, NotKeyed, OthersCoded, validate_definition-IsDefined, get_by_code-none, append-IsValid,
  remove-IsValid, NotCoded-OthersCoded, find-OthersCoded, get_by_code-OthersCoded, modify-IsValid,
}

-- What an action leaves in the database.
abbrev pub promos_after : {A : Type 0} → Result PromoError A × Db → List PromoCode
promos_after (_, db) = db.promos

-- Creating a coupon, under a key that no row has yet, keeps the table valid, whether it succeeds or
-- not.
pub create_promo-IsValid :
    (p : PromoCode) (db : Db)
    → IsValid db.promos
    → NotKeyed p.id db.promos
    → IsValid (promos_after (run_request (create_promo p) db))
unfolding create_promo
create_promo-IsValid p db v k = ground (
  arith,
  validate_definition-IsDefined p.discount_type p.discount_value p.active_from p.active_to,
  get_by_code-none p.code db.promos,
  append-IsValid p db.promos,
)

-- A deletion that went through: the coupon was there, it is gone, every other row is as before, and
-- the table is valid. Otherwise there was none, and nothing has changed.
abbrev pub Deleted : ℕ → Db → Result PromoError (Unit {0}) × Db → Type 0
Deleted id db (ok _, db') =
    ((p : PromoCode) × (find promo_id id db.promos ≡ some p))
    × (find promo_id id db'.promos ≡ none)
    × ((j : ℕ) → id ≢ j → find promo_id j db'.promos ≡ find promo_id j db.promos)
    × IsValid db'.promos
Deleted id db (err not_found, db') = (find promo_id id db.promos ≡ none) × (db' ≡ db)
Deleted id db (err _, db') = ⊥

-- On a valid table: deleting a coupon that is there takes out its row and no other and keeps the table
-- valid; one that is not there is reported as such and nothing changes.
pub delete_promo-Deleted :
    (id : ℕ) (db : Db) → IsValid db.promos → Deleted id db (run_request (delete_promo id) db)
unfolding delete_promo
delete_promo-Deleted id db v = elim (Option-cases (find promo_id id db.promos)) [
  | inl e ↦ rw e (e, refl)
  | inr (p, e) ↦
      let keyed : p.id ≡ id = find_key promo_id id db.promos p e in
      rw e (
        (p, e),
        ground (arith, keyed, find-remove promo_id id p.id db.promos),
        (λ j other. ground (arith, keyed, find-remove promo_id j p.id db.promos)),
        remove-IsValid p.id db.promos v,
      )
]

code_clash-OthersCoded :
    (u : PromoUpdate) (k : ℕ) (ps : List PromoCode) (p : PromoCode)
    → find promo_id k ps ≡ some p
    → IsValid ps
    → code_clash p u.code ps ≡ false
    → OthersCoded k (apply_changes u p).code ps
code_clash-OthersCoded u k ps p e v h = go u.code h
  where
    own : OthersCoded k p.code ps
    own = find-OthersCoded k ps p e v

    keyed : p.id ≡ k
    keyed = find_key promo_id k ps p e

    unclashed :
        (c : String) (q : PromoCode)
        → str_eq c p.code ≡ false
        → get_by_code c ps ≡ some q
        → code_clash p (assign c) ps ≡ false
        → q.id ≡ k
    unclashed c q differs found h = ground (arith, keyed)

    go : (c : Patch String) → code_clash p c ps ≡ false → OthersCoded k (patched c p.code) ps
    go unset h = own
    go (assign c) h = elim (Bool-cases (str_eq c p.code)) [
      | inl same ↦ rw ((str_eq_iff c p.code).0 same) own
      | inr differs ↦ elim (Option-cases (get_by_code c ps)) [
        | inl free ↦ NotCoded-OthersCoded k c ps (get_by_code-none c ps free)
        | inr (q, found) ↦
            subst (λ j. OthersCoded j c ps) (unclashed c q differs found h)
              (get_by_code-OthersCoded c ps q found v)
      ]
    ]

-- Changing a coupon keeps the table valid, whether it succeeds or not: the written row is checked
-- before the commit, and a raise discards it.
pub update_promo-IsValid :
    (id : ℕ) (u : PromoUpdate) (db : Db)
    → IsValid db.promos
    → IsValid (promos_after (run_request (update_promo id u) db))
unfolding update_promo
update_promo-IsValid id u db v = elim (Option-cases (find promo_id id db.promos)) [
  | inl e ↦ ground arith
  | inr (p, e) ↦ ground (
    arith,
    code_clash-OthersCoded u id db.promos p e v,
    validate_definition-IsDefined (apply_changes u p).discount_type
        (apply_changes u p).discount_value (apply_changes u p).active_from
        (apply_changes u p).active_to,
    modify-IsValid id (apply_changes u) (λ r. refl) db.promos p e,
  )
]
