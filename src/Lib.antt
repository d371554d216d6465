-- ===== src/Lib.antt =====
-- A model of the store's buying path and of its back-office catalogue, with what is proved of it.
--
-- The program is a FastAPI back end over PostgreSQL. A service works on one database session: what
-- it writes is seen inside the session and reaches the database with a commit; a rollback, or a
-- request that raises, loses what was not committed. Common/Session models this: an action takes a
-- session (the working and the committed tables) to a result or an error and a session, and
-- `run_request` runs one on a database. A single statement is atomic, as in the database.
-- Tables are lists of rows (Common/Table), amounts are whole hundredths, keys and instants are
-- natural numbers. The loops are structural recursions over lists, so no fuel is used.
--
-- Common     shared helpers: Boolean tests, lists, signed amounts, tables, sessions.
-- Models     the rows of app/models that the parts below use, in the databases that they work on.
-- Promo      app/services/promo_service.py and app/repositories/promo_repo.py: validate_and_compute,
--            _compute_discount, create_promo, update_promo, delete_promo.
-- Stock      decrement_stock and increment_stock of app/repositories/order_repo.py, the loop over a
--            checkout's lines and the loop over a canceled order's lines.
-- Order      app/services/order_service.py: the transition tables, transition with the cancel of a
--            waybill, the audit rows and the stock return after the commit; the back-office entry
--            of app/services/admin_order_service.py.
-- Checkout   app/services/checkout_service.py: the delivery selection, cart lines, totals, quote,
--            checkout, quick_buy and _persist_order, which call Promo, Stock and the tables, and
--            the card payment that checkout starts in Payment after its commit.
-- Payment    app/services/payment/payment_service.py and app/repositories/payment_repo.py: initiate,
--            callback and refund, which drive the order through Order's transition.
-- Cart       app/services/cart_service.py and app/repositories/cart_repo.py: the caller's cart, its
--            lines, the view with live prices, and the merge of a guest's cart.
-- Categories the category operations of app/services/admin_catalog_service.py: create_category,
--            update_category, delete_category, set_category_translation, reorder_categories and
--            move_category, over the stored paths of the tree.
-- Cards      app/services/catalog_service.py: assert_publishable, rebuild_card and rebuild_cards, with
--            their reads in app/repositories/catalog_repo.py.
-- Products   the product and variant operations of app/services/admin_catalog_service.py, which end
--            in a rebuild of the product's cards, and the values assigned to a product.
-- Accounts   app/services/auth_service.py with app/core/security.py and app/repositories/user_repo.py:
--            refresh and logout over the blacklist in Redis, and a user's addresses.
-- RateLimit  app/api/ratelimit.py: the limit, the caller's address and the counter of one key, under
--            its INCR and EXPIRE commands in any order, with an EXPIRE late or lost.
-- Reviews    app/services/review_service.py and app/repositories/review_repo.py: submit, delete and
--            moderate.
-- Fixtures   a small database on which the properties are tried, in the Tests module of each part.
--
-- Parameters: the payment provider; the carrier's quotes and names, and whether it cancels a
-- shipment; the localized labels of variant options; Python's strip, lower and upper; the keys and
-- numbers that sequences hand out; the JWT library; the clock.
--
-- Not modelled: HTTP and schemas, e-mail and other background tasks, log lines, creation times, row
-- locks (a request is one sequence of statements here, so a lock changes nothing), the carrier's
-- waybills beyond their cancel, uniqueness that the database enforces by itself, stored images, the
-- attribute dictionary, registration and login, the lists of reviews, restock, search and support.
pub mod Common
pub mod Models
pub mod Promo
pub mod Stock
pub mod Order
pub mod Checkout
pub mod Accounts
pub mod Cards
pub mod Cart
pub mod Categories
pub mod Fixtures
pub mod Payment
pub mod Products
pub mod RateLimit
pub mod Reviews
