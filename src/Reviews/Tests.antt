-- ===== src/Reviews/Tests.antt =====
-- Reviews of the small shop.
use store_evix.Common.{◌≡◌, refl, false, none, some, [], ◌∷◌}
use store_evix.Common.Session.{err, run_request}
use store_evix.Fixtures.{shop_db}
use store_evix.Reviews.Defs.{
  approved, pending, Review, ReviewSubmitIn, ReviewDb, review_forbidden, submit, has_purchased,
  delete_own, moderate,
}
use store_evix.Reviews.Shown.{moderating, reviews_served, IsShownFrom, reviews_served-IsShownFrom}

abbrev praise : ReviewSubmitIn
praise = record {
  product_id = 1;
  rating = 5;
  title = some "Good";
  body = none;
  author_name = none;
  lang = "ro";
}

abbrev unreviewed : ReviewDb
unreviewed = record { shop = shop_db; reviews = [] }

abbrev praised : ReviewDb
praised = (run_request (submit 1 4 praise) unreviewed).1

reviews_served-IsShownFrom_example :
    IsShownFrom
      (moderating 1 approved 100)
      praised.reviews
      (reviews_served (moderating 1 approved 100) praised)
reviews_served-IsShownFrom_example = reviews_served-IsShownFrom (moderating 1 approved 100) praised

abbrev kept : Review
kept = record {
  id = 1;
  product_id = 1;
  user_id = 4;
  rating = 5;
  title = some "Good";
  body = none;
  author_name = none;
  status = approved;
  is_verified = false;
  lang = "ro";
  moderated_at = some 100;
}

is_approved : reviews_served (moderating 1 approved 100) praised ≡ kept ∷ []
unfolding submit has_purchased moderate
is_approved = refl

-- An edit sends the review back to moderation.
is_pending_again :
    (run_request (submit 2 4 praise) (record unreviewed { reviews = kept ∷ [] })).1.reviews
    ≡ record kept { status = pending; moderated_at = none } ∷ []
unfolding submit has_purchased
is_pending_again = refl

not_the_author :
    run_request (delete_own 9 1) (record unreviewed { reviews = kept ∷ [] })
    ≡ (err review_forbidden, record unreviewed { reviews = kept ∷ [] })
unfolding delete_own
not_the_author = refl
