-- ===== src/Incorporations/Service.antt =====
-- src/main/marketplace/incorporations-service.js: what the answers of the remote service become. An
-- exception in the callback of a request is caught by nobody: the promise stays pending, unless it was
-- rejected before.
use identity_wallet.Common.{
  Bool, true, false, some, List, [], ◌∷◌, ◌≡◌, refl, Result, ok, throw, type_error, ◌>>=◌,
}
use identity_wallet.Schema.Text.{Text, codes, text_eq}
use identity_wallet.Schema.Value.{
  Value, undefined, null, arr, obj, Items, nil, cons, Fields, get, put, spread,
}
use identity_wallet.Incorporations.Operations.{Tables, ForCountry}

pub data Promise (A : Type 0) : Type 0 where
  resolved : A → Promise A
  rejected pending : Promise A

-- How a request ends: its promise, and whether the callback threw.
pub record Ended (A : Type 0) : Type 0 where
  pub promise : Promise A
  pub uncaught : Bool

pub record Payload : Type 0 where
  pub incorporations : List Fields
  pub corporations : List Fields
  pub llcs : List Fields
  pub foundations : List Fields
  pub trusts : List Fields
  pub translation : List Fields
  pub taxes : List Fields

-- `v.key`
unfoldable pub read : Text → Value → Result Value
read key undefined = throw type_error
read key null = throw type_error
read key (obj o) = ok (get key o)
read key _ = ok undefined

unfoldable pub map_all : (Value → Result Fields) → Items → Result (List Fields)
map_all f nil = ok []
map_all f (cons x xs) = do y ← f x; ys ← map_all f xs; ok (y ∷ ys)

-- `list.map(f)`
unfoldable pub map_rows : (Value → Result Fields) → Value → Result (List Fields)
unfolding map_all
map_rows f (arr xs) = map_all f xs
map_rows f _ = throw type_error

-- `{ ...v }`, also of what is missing.
abbrev copy : Value → Result Fields
unfolding spread
copy v = ok (spread v)

-- `{ ...inc.data.fields, id: inc.data.id }`
unfoldable pub corp_map : Value → Result Fields
unfolding read spread put
corp_map corp = do
  content ← read (codes "data") corp
  fields ← read (codes "fields") content
  id ← read (codes "id") content
  ok (put (codes "id") id (spread fields))

unfoldable pub parse_incorporations : Value → Result Payload
unfolding read map_rows corp_map
parse_incorporations response = do
  main ← read (codes "Main") response
  corporations ← read (codes "Corporations") response
  llcs ← read (codes "LLCs") response
  taxes ← read (codes "Taxes") response
  foundations ← read (codes "Foundations") response
  trusts ← read (codes "Trusts") response
  en ← read (codes "EN") response
  main_rows ← map_rows corp_map main
  corporation_rows ← map_rows corp_map corporations
  llc_rows ← map_rows corp_map llcs
  foundation_rows ← map_rows corp_map foundations
  trust_rows ← map_rows corp_map trusts
  translation_rows ← map_rows corp_map en
  tax_rows ← map_rows corp_map taxes
  ok (record {
    incorporations = main_rows;
    corporations = corporation_rows;
    llcs = llc_rows;
    foundations = foundation_rows;
    trusts = trust_rows;
    translation = translation_rows;
    taxes = tax_rows;
  })

-- What the operations read of it.
unfoldable pub tables_of : Payload → Tables
tables_of p = record {
  incorporations = some p.incorporations;
  corporations = some p.corporations;
  llcs = some p.llcs;
  foundations = some p.foundations;
  taxes = some p.taxes;
  translation = some p.translation;
}

-- The callback, with what the promise is before it resolves it.
unfoldable pub ended : {A : Type 0} → Promise A → Result A → Ended A
ended (resolved a) r = record { promise = resolved a; uncaught = false }
ended pending (ok a) = record { promise = resolved a; uncaught = false }
ended pending (throw x) = record { promise = pending; uncaught = true }
ended rejected (ok a) = record { promise = rejected; uncaught = false }
ended rejected (throw x) = record { promise = rejected; uncaught = true }

-- With an error, the answer is not read.
unfoldable pub load_incorporations : Bool → Value → Ended Payload
unfolding parse_incorporations ended
load_incorporations true response = record { promise = rejected; uncaught = false }
load_incorporations false response = ended pending (parse_incorporations response)

-- With an error, the promise is rejected, and the answer is read all the same.
abbrev after_error : {A : Type 0} → Bool → Promise A
after_error true = rejected
after_error false = pending

-- `response[0]`
abbrev first : Value → Result Value
first (arr nil) = ok undefined
first (arr (cons x xs)) = ok x
first undefined = throw type_error
first null = throw type_error
first _ = ok undefined

unfoldable pub load_treaties_data : Text → Bool → Value → Ended ForCountry
unfolding map_rows ended copy
load_treaties_data country_code error response = ended (after_error error) (do
  treaties ← first response
  rows ← map_rows copy treaties
  ok (record { country_code = country_code; rows = some rows }))

unfoldable pub load_country_info : Text → Bool → Value → Ended ForCountry
unfolding map_rows ended copy
load_country_info country_code error response = ended (after_error error) (do
  rows ← map_rows copy response
  ok (record { country_code = country_code; rows = some rows }))

-- Where the country's request fails, there is no answer, and reading it throws after the rejection.
load_country_info-error :
    (country_code : Text)
    → load_country_info country_code true undefined ≡ record { promise = rejected; uncaught = true }
unfolding load_country_info
load_country_info-error country_code = refl
