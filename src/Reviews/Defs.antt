-- ===== src/Reviews/Defs.antt =====
-- The operations that write reviews: app/services/review_service.py, with their statements of
-- app/repositories/review_repo.py. The schema has checked a payload before: the rating is from 1 to 5,
-- the language is known, blank texts are none, and a moderation approves or rejects.
use store_evix.Common.{
  ℕ, Bool, true, false, not, ◌&&◌, Option, none, some, List, [], ◌∷◌, ◌++◌, String, any, ◌==◌,
  opt_eq, if◌then◌else◌,
}
use store_evix.Common.Table.{find, modify, remove}
use store_evix.Common.Session.{Action, gets, or_raise, raise_if, write, commit, ◌>>=◌, ◌>>◌}
use store_evix.Models.Order.{OrderStatus, Order, OrderItem, canceled}
use store_evix.Models.Db.{Db}
use store_evix.Stock.{product_key}

pub data ReviewStatus : Type 0 where
  pending approved rejected : ReviewStatus

pub record Review : Type 0 where
  pub id : ℕ
  pub product_id : ℕ
  pub user_id : ℕ
  pub rating : ℕ
  pub title : Option String
  pub body : Option String
  pub author_name : Option String
  pub status : ReviewStatus
  pub is_verified : Bool
  pub lang : String
  pub moderated_at : Option ℕ

pub record ReviewSubmitIn : Type 0 where
  pub product_id : ℕ
  pub rating : ℕ
  pub title : Option String
  pub body : Option String
  pub author_name : Option String
  pub lang : String

-- The reviews beside the tables of the shop.
pub record ReviewDb : Type 0 where
  pub shop : Db
  pub reviews : List Review

pub data ReviewError : Type 0 where
  review_not_found review_forbidden : ReviewError

abbrev pub ReviewAction : Type 0 → Type 0
ReviewAction A = Action ReviewDb ReviewError A

abbrev pub set_reviews : List Review → ReviewDb → ReviewDb
set_reviews rs db = record db { reviews = rs }

abbrev pub review_id : Review → ℕ
review_id r = r.id

-- The review of a product by a user.
abbrev pub get_review : ℕ → ℕ → List Review → Option Review
get_review product user [] = none
get_review product user (r ∷ rs) =
    if (r.product_id == product) && (r.user_id == user) then some r else get_review product user rs

abbrev pub is_canceled : OrderStatus → Bool
is_canceled canceled = true
is_canceled _ = false

-- An order of the user that is not canceled.
abbrev pub bought_in : ℕ → ℕ → Order → Bool
bought_in user order o =
    (o.id == order) && (opt_eq o.user_id (some user) && not (is_canceled o.status))

abbrev pub is_purchase : ℕ → ℕ → List Order → OrderItem → Bool
is_purchase product user orders i =
    opt_eq i.product_id (some product) && any (bought_in user i.order_id) orders

unfoldable pub has_purchased : ℕ → ℕ → Db → Bool
has_purchased product user shop = any (is_purchase product user shop.orders) shop.order_items

abbrev pub new_review : ℕ → ℕ → ReviewSubmitIn → Bool → Review
new_review id user payload verified = record {
  id = id;
  product_id = payload.product_id;
  user_id = user;
  rating = payload.rating;
  title = payload.title;
  body = payload.body;
  author_name = payload.author_name;
  status = pending;
  is_verified = verified;
  lang = payload.lang;
  moderated_at = none;
}

abbrev pub edit_review : ReviewSubmitIn → Bool → Review → Review
edit_review payload verified r = record r {
  rating = payload.rating;
  title = payload.title;
  body = payload.body;
  author_name = payload.author_name;
  status = pending;
  is_verified = verified;
  lang = payload.lang;
  moderated_at = none;
}

abbrev pub upsert_review : ℕ → ℕ → ReviewSubmitIn → Bool → Option Review → List Review → List Review
upsert_review id user payload verified none rs = rs ++ new_review id user payload verified ∷ []
upsert_review id user payload verified (some r) rs =
    modify review_id r.id (edit_review payload verified) rs

-- `id` is the key that the sequence would hand out.
unfoldable pub submit : ℕ → ℕ → ReviewSubmitIn → ReviewAction (Unit {0})
submit id user payload = do
  found ← gets (λ db. find product_key payload.product_id db.shop.stock.products)
  _ ← or_raise found review_not_found
  verified ← gets (λ db. has_purchased payload.product_id user db.shop)
  review ← gets (λ db. get_review payload.product_id user db.reviews)
  write (λ db. set_reviews (upsert_review id user payload verified review db.reviews) db)
  commit

abbrev pub get_by_id : ℕ → ReviewAction Review
get_by_id id = do found ← gets (λ db. find review_id id db.reviews); or_raise found review_not_found

unfoldable pub delete_own : ℕ → ℕ → ReviewAction (Unit {0})
delete_own user id = do
  review ← get_by_id id
  raise_if (not (review.user_id == user)) review_forbidden
  write (λ db. set_reviews (remove review_id id db.reviews) db)
  commit

abbrev pub decide : ReviewStatus → ℕ → Review → Review
decide status now r = record r { status = status; moderated_at = some now }

unfoldable pub moderate : ℕ → ReviewStatus → ℕ → ReviewAction (Unit {0})
moderate id status now = do
  _ ← get_by_id id
  write (λ db. set_reviews (modify review_id id (decide status now) db.reviews) db)
  commit

unfoldable pub delete_admin : ℕ → ReviewAction (Unit {0})
delete_admin id = do
  _ ← get_by_id id
  write (λ db. set_reviews (remove review_id id db.reviews) db)
  commit
