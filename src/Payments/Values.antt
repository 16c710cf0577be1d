-- ===== src/Payments/Values.antt =====
-- The values that `json.loads` returns for a webhook's body, and Python's `dict.get` and truth test
-- on them. A number is a natural one: Paystack's identifiers and its amounts in kobo are.
use farm_link.Common.{ℕ, String, Bool, true, false, ◌==◌, str_eq, if◌then◌else◌, not}
use farm_link.Session.{attribute_error, Result, ok, err}

mutual
  pub data Json : Type 0 where
    null : Json
    boolean : Bool → Json
    number : ℕ → Json
    text : String → Json
    array : Items → Json
    object : Fields → Json

  pub data Items : Type 0 where
    nil : Items
    item : Json → Items → Items

  pub data Fields : Type 0 where
    end : Fields
    field : String → Json → Fields → Fields

-- `o[name]` of an object, or the default.
unfoldable pub field_or : String → Json → Fields → Json
field_or name default end = default
field_or name default (field n v rest) = if str_eq n name then v else field_or name default rest

-- `value.get(name, default)`: only an object has `get`.
unfoldable pub get : String → Json → Json → Result Json
unfolding field_or
get name default null = err attribute_error
get name default (boolean b) = err attribute_error
get name default (number n) = err attribute_error
get name default (text s) = err attribute_error
get name default (array xs) = err attribute_error
get name default (object fields) = ok (field_or name default fields)

-- Python's `bool(value)`.
unfoldable pub truthy : Json → Bool
truthy null = false
truthy (boolean b) = b
truthy (number n) = not (n == 0)
truthy (text s) = not (str_eq s "")
truthy (array nil) = false
truthy (array (item x xs)) = true
truthy (object end) = false
truthy (object (field n v rest)) = true
