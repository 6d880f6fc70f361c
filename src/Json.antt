-- ===== src/Json.antt =====
-- The JSON values that the program stores in JSON columns and reads back by key.
pub mod Dumps
use saas_agent_lab.Common.{
  ℕ, String, Bool, Option, none, some, List, [], ◌∷◌, str_eq, if◌then◌else◌,
}
use saas_agent_lab.Text.{Text}
use saas_agent_lab.Errors.{Message}

-- `str` is text the application chose, `text` text that came from outside; `time` is a datetime in
-- ISO 8601; `message` is the text of an application message.
mutual
  pub data Json : Type 0 where
    null : Json
    bool : Bool → Json
    num : ℕ → Json
    str : String → Json
    text : Text → Json
    time : ℕ → Json
    message : Message → Json
    arr : Items → Json
    obj : Fields → Json

  pub data Items : Type 0 where
    nil : Items
    cons : Json → Items → Items

  pub data Fields : Type 0 where
    end : Fields
    field : String → Json → Fields → Fields

-- `detail.get(key)`.
unfoldable pub get : String → Fields → Option Json
get key end = none
get key (field name value rest) = if str_eq name key then some value else get key rest

abbrev pub or_null : {A : Type 0} → (A → Json) → Option A → Json
or_null f none = null
or_null f (some a) = f a

abbrev pub items : List Json → Items
items [] = nil
items (x ∷ xs) = cons x (items xs)
