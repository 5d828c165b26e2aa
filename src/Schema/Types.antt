-- ===== src/Schema/Types.antt =====
-- JSON schemas of attribute types, as far as src/common/identity/utils.js reads them.
use identity_wallet.Common.{Option}
use identity_wallet.Schema.Text.{Text}
use identity_wallet.Schema.Value.{Fields}

-- The keywords without subschemas; `rest` holds those that the code only copies.
pub record Keywords : Type 0 where
  pub id : Option Text
  pub dialect : Option Text
  pub format : Option Text
  pub type : Option Text
  pub rest : Fields

mutual
  pub data Schema : Type 0 where
    schema : Keywords → Properties → Item → Schema

  -- `properties`, if there are any
  pub data Properties : Type 0 where
    no_properties : Properties
    properties : PropertyList → Properties

  pub data PropertyList : Type 0 where
    end : PropertyList
    property : Text → Schema → PropertyList → PropertyList

  -- `items`, if there is one
  pub data Item : Type 0 where
    no_item : Item
    item : Schema → Item
