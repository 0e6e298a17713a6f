-- ===== src/Tenants.antt =====
-- backend/src/tenants.ts.
use ufsc_dso2_trabalho1_merc.Prelude.{
  ℕ, String, Bool, true, Option, none, some, List, [], ◌∷◌, if◌then◌else◌, str_eq,
}

pub record Tenant : Type 0 where
  pub id : String
  pub name : String
  pub active : Bool
  pub currency_code : String
  pub currency_minor_unit : ℕ

abbrev pub default_tenant_id : String
default_tenant_id = "mercadozetta"

abbrev pub mercado_zetta : Tenant
mercado_zetta = record {
  id = default_tenant_id;
  name = "MercadoZetta";
  active = true;
  currency_code = "USD";
  currency_minor_unit = 2;
}

abbrev pub campus_market : Tenant
campus_market = record {
  id = "campus-market";
  name = "CampusMarket";
  active = true;
  currency_code = "EUR";
  currency_minor_unit = 2;
}

-- `tenants[id]`
abbrev pub tenants : String → Option Tenant
tenants id =
    if str_eq id default_tenant_id
    then some mercado_zetta
    else if str_eq id "campus-market"
    then some campus_market
    else none

-- The values that `tenantId?: string | string[]` takes.
pub data TenantParam : Type 0 where
  absent : TenantParam
  one : String → TenantParam
  many : List String → TenantParam

abbrev first_id : TenantParam → String
first_id absent = ""
first_id (one id) = id
first_id (many []) = ""
first_id (many (id ∷ ids)) = id

abbrev if_active : Option Tenant → Option Tenant
if_active none = none
if_active (some t) = if t.active then some t else none

-- An undefined id is falsy as the empty string is.
unfoldable pub resolve_tenant : TenantParam → Option Tenant
resolve_tenant param =
    let id = first_id param in if_active (tenants (if str_eq id "" then default_tenant_id else id))
