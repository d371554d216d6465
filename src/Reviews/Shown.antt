-- ===== src/Reviews/Shown.antt =====
-- A review is shown only once an operator has approved it as it stands: app/services/review_service.py.

use store_evix.Common.{
  ℕ, ◌≡◌, refl, sym, ap, ◌∙◌, Bool, inl, inr, ◌⊎◌, Option, none, some, List, [], ◌∷◌, ◌==◌, ==_iff,
  Bool-cases, Option-cases, arith,
}
use store_evix.Common.Table.{find, modify, remove, find-modify, find-append, find-remove}
use store_evix.Common.Session.{Result, Session, run_request, guard_or_raise}
use store_evix.Stock.{product_key}
use store_evix.Reviews.Defs.{
  ReviewStatus, approved, Review, ReviewSubmitIn, ReviewDb, ReviewError, review_not_found,
  review_id, get_review, has_purchased, edit_review, new_review, upsert_review, submit, delete_own,
  decide, moderate, delete_admin,
}

-- The requests; a submission comes with the key that the sequence would hand out.
pub data ReviewRequest : Type 0 where
  submitting : ℕ → ℕ → ReviewSubmitIn → ReviewRequest
  deleting_own : ℕ → ℕ → ReviewRequest
  moderating : ℕ → ReviewStatus → ℕ → ReviewRequest
  deleting : ℕ → ReviewRequest

abbrev reviews_after : Result ReviewError (Unit {0}) × ReviewDb → List Review
reviews_after (_, db) = db.reviews

abbrev pub reviews_served : ReviewRequest → ReviewDb → List Review
reviews_served (submitting id user payload) db =
    reviews_after (run_request (submit id user payload) db)
reviews_served (deleting_own user id) db = reviews_after (run_request (delete_own user id) db)
reviews_served (moderating id status now) db =
    reviews_after (run_request (moderate id status now) db)
reviews_served (deleting id) db = reviews_after (run_request (delete_admin id) db)

-- The request is an operator's approval of a review as it stood.
abbrev pub Approval : ReviewRequest → List Review → ℕ → Review → Type 0
Approval (moderating id status now) before k r =
    (id ≡ k)
    × (status ≡ approved)
    × ((r0 : Review) × (find review_id k before ≡ some r0) × (r ≡ decide approved now r0))
Approval _ before k r = ⊥

abbrev pub IsShownFrom : ReviewRequest → List Review → List Review → Type 0
IsShownFrom q before after =
    (k : ℕ) (r : Review)
    → find review_id k after ≡ some r
    → r.status ≡ approved
    → (find review_id k before ≡ some r) ⊎ Approval q before k r

-- What a request that ends with an error or a commit leaves.
abbrev Leaves :
    ReviewRequest → List Review → Result ReviewError (Unit {0}) × Session ReviewDb → Type 0
Leaves q before x = IsShownFrom q before x.1.committed.reviews

removed :
    (q : ReviewRequest) (id : ℕ) (rs : List Review) → IsShownFrom q rs (remove review_id id rs)
removed q id rs k r found on = inl ground (arith, find-remove review_id k id rs)

edited :
    (q : ReviewRequest) (id : ℕ) (payload : ReviewSubmitIn) (b : Bool) (rs : List Review)
    → IsShownFrom q rs (modify review_id id (edit_review payload b) rs)
edited q id payload b rs k r found on = elim (Option-cases (find review_id k rs)) [
  | inl missing ↦
      inl ground (arith, find-modify review_id k id (edit_review payload b) rs (λ r. refl))
  | inr (r0, there) ↦
      inl ground (arith, find-modify review_id k id (edit_review payload b) rs (λ r. refl))
]

upserted :
    (q : ReviewRequest) (id user : ℕ) (payload : ReviewSubmitIn) (b : Bool) (o : Option Review)
    (rs : List Review)
    → IsShownFrom q rs (upsert_review id user payload b o rs)
upserted q id user payload b none rs k r found on =
    inl ground (arith, find-append review_id k rs (new_review id user payload b ∷ []))
upserted q id user payload b (some old) rs k r found on = edited q old.id payload b rs k r found on

decided :
    (id : ℕ) (status : ReviewStatus) (now : ℕ) (rs : List Review)
    → IsShownFrom (moderating id status now) rs (modify review_id id (decide status now) rs)
decided id status now rs k r found on = elim (Bool-cases (id == k)) [
  | inl here ↦ elim (Option-cases (find review_id k rs)) [
    | inl missing ↦
        inl ground (arith, find-modify review_id k id (decide status now) rs (λ r. refl))
    | inr (r0, there) ↦
        let known : r ≡ decide status now r0 =
          ground (arith, find-modify review_id k id (decide status now) rs (λ r. refl)) in
        let yes : status ≡ approved = sym (ap (λ x. x.status) known) ∙ on in
        inr ((==_iff id k).0 here, yes, (r0, there, known ∙ ap (λ s. decide s now r0) yes))
  ]
  | inr other ↦ inl ground (arith, find-modify review_id k id (decide status now) rs (λ r. refl))
]

-- A request leaves a review approved only if it was approved before and is still the same, or if the
-- request is an operator's approval of this review as it stood.
pub reviews_served-IsShownFrom :
    (q : ReviewRequest) (db : ReviewDb) → IsShownFrom q db.reviews (reviews_served q db)
unfolding submit delete_own moderate delete_admin
reviews_served-IsShownFrom (submitting id user payload) db =
    guard_or_raise (Leaves (submitting id user payload) db.reviews) _ review_not_found
      (find product_key payload.product_id db.shop.stock.products) _ (λ k r found on. inl found)
      (λ p found.
        upserted (submitting id user payload) id user payload
          (has_purchased payload.product_id user db.shop)
          (get_review payload.product_id user db.reviews) db.reviews)
reviews_served-IsShownFrom (deleting_own user id) db =
    elim (Option-cases (find review_id id db.reviews)) [
      | inl missing ↦ rw missing (λ k r found on. inl found)
      | inr (r, there) ↦ elim (Bool-cases (r.user_id == user)) [
        | inl own ↦ rw (there, own) (removed (deleting_own user id) id db.reviews)
        | inr other ↦ rw (there, other) (λ k r found on. inl found)
      ]
    ]
reviews_served-IsShownFrom (moderating id status now) db =
    elim (Option-cases (find review_id id db.reviews)) [
      | inl missing ↦ rw missing (λ k r found on. inl found)
      | inr (r, there) ↦ rw there (decided id status now db.reviews)
    ]
reviews_served-IsShownFrom (deleting id) db = elim (Option-cases (find review_id id db.reviews)) [
  | inl missing ↦ rw missing (λ k r found on. inl found)
  | inr (r, there) ↦ rw there (removed (deleting id) id db.reviews)
]
