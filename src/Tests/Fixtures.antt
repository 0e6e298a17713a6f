-- ===== src/Tests/Fixtures.antt =====
-- A small marketplace: two sellers, a buyer with a cart, and a transaction that keeps its word.
use ufsc_dso2_trabalho1_merc.Prelude.{List, ℕ, ◌+◌, String, Option, none, some, [], ◌∷◌, ap, false}
use ufsc_dso2_trabalho1_merc.Result.{Result, ok, err}
use ufsc_dso2_trabalho1_merc.Action.{Transactions}
use ufsc_dso2_trabalho1_merc.ProductStatus.{ProductStatus, active}
use ufsc_dso2_trabalho1_merc.Database.{Uuid, ProductRow, CartRow, AddressRow, Db}
use ufsc_dso2_trabalho1_merc.Products.{ProductRecord, price_in}
use ufsc_dso2_trabalho1_merc.Carts.{CartLine}
use ufsc_dso2_trabalho1_merc.Pricing.{Fingerprint}
use ufsc_dso2_trabalho1_merc.Checkout.Persist.{Env}
use ufsc_dso2_trabalho1_merc.Fulfilment

abbrev settle : {S A : Type 0} → S → Result A × S → Result A × S
settle s (ok a, s') = (ok a, s')
settle s (err e, s') = (err e, s)

-- Commit on a return, roll back on a throw.
abbrev pub plain_transactions : Transactions Db
plain_transactions = record {
  transaction = λ work s. settle s (work s);
  commits = λ work s s' a h. ap (settle s) h;
  rolls_back = λ work s s' e h. ap (settle s) h;
}

abbrev pub tenant : String
tenant = "mercadozetta"

abbrev pub buyer : Uuid
buyer = 7

abbrev product : Uuid → Uuid → String → ℕ → Option ℕ → ProductStatus → ProductRow
product id seller name inventory price status = record {
  id = id;
  tenant_id = tenant;
  seller_id = seller;
  name = name;
  description = none;
  category = "general";
  subcategory = "";
  inventory = inventory;
  unit_price_minor = price;
  image_url = "/p.png";
  status = status;
  created_at = 1;
  updated_at = 1;
}

abbrev cart_row : CartRow
cart_row = record { id = 50; tenant_id = tenant; buyer_id = buyer; created_at = 2; updated_at = 2 }

abbrev pub home : AddressRow
home = record {
  id = 60;
  tenant_id = tenant;
  user_id = buyer;
  label = "Home";
  recipient_name = "Ana";
  line1 = "Rua 1";
  line2 = none;
  city = "Lisboa";
  region = none;
  postal_code = "1000-001";
  country_code = "PT";
  telephone = "12345";
  is_default = false;
  created_at = 1;
  updated_at = 3;
}

abbrev product_record : ProductRow → ProductRecord
product_record row = record {
  id = row.id;
  tenant_id = row.tenant_id;
  seller = row.seller_id;
  name = row.name;
  description = row.description;
  category = row.category;
  subcategory = row.subcategory;
  inventory = row.inventory;
  price = price_in "EUR" row.unit_price_minor;
  image = row.image_url;
  status = row.status;
  created_at = row.created_at;
  updated_at = row.updated_at;
}

-- The lamp of the market, priced in the tenant's currency.
abbrev pub quoted_lamp : ProductRecord
quoted_lamp = record (product_record (product 10 1 "lamp" 5 (some 1250) active)) {
  price = price_in "USD" (some 1250);
}

-- A cart to be quoted: 3 pens and a lamp.
abbrev pub quoted_cart : List CartLine
quoted_cart =
    record { product = product_record (product 20 2 "pen" 4 (some 100) active); quantity = 3 }
    ∷ record { product = product_record (product 10 1 "lamp" 5 (some 1250) active); quantity = 1 }
    ∷ []

-- The cart holds 3 pieces of product 20 and 1 of product 10.
abbrev pub market : Db
market = record {
  products = product 10 1 "lamp" 5 (some 1250) active ∷ product 20 2 "pen" 4 (some 100) active ∷ [];
  price_history = [];
  carts = cart_row ∷ [];
  cart_items =
      record { tenant_id = tenant; cart_id = 50; product_id = 20; quantity = 3 }
      ∷ record { tenant_id = tenant; cart_id = 50; product_id = 10; quantity = 1 }
      ∷ [];
  addresses = home ∷ [];
  orders = [];
  order_items = [];
  status_history = [];
  notifications = [];
  audit_events = [];
  idempotency = [];
  users = [];
  sessions = [];
  account_tokens = [];
  reviews = [];
  watchlist = [];
}

abbrev pub env : Env
env = record {
  now = 100;
  stock_clock = λ i. 101 + i;
  cart_clock = 110;
  order_id = 1000;
  item_id = λ i. 2000 + i;
  audit_id = λ i. 3000 + i;
  notice_id = λ i. 4000 + i;
  seller_notice_id = λ i. 5000 + i;
}

-- The environment of a second call.
abbrev pub later : Env
later = record env { now = 200; cart_clock = 210; order_id = 1001 }

-- The environment of a change of status.
abbrev pub change_env : Fulfilment.Env
change_env = record { now = 300; notice_id = λ i. 6000 + i; audit_id = λ i. 7000 + i }

abbrev pub later_change_env : Fulfilment.Env
later_change_env = record change_env { now = 400 }

abbrev pub quote_hash : Fingerprint → String
quote_hash f = f.delivery_option_id
