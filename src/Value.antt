-- ===== src/Value.antt =====
-- Python values as `json.loads` makes them: what a request body or a configuration holds. Numbers
-- are integers. A list or dict of values is one of its own types, since a type holds no list of itself.
use heimdall_gateway.Prelude.Int.{ℤ, pos}
use Prim.Native.String.{String}
use heimdall_gateway.Prelude.{
  zero, ◌≡◌, refl, ap, Bool, true, false, not, List, [], ◌∷◌, or_else, ◌==◌, nat_key, string_key,
}
use heimdall_gateway.Dict.{Dict, get}

mutual
  pub data Value : Type 0 where
    null : Value
    boolean : Bool → Value
    number : ℤ → Value
    text : String → Value
    items : Values → Value
    fields : Fields → Value

  pub data Values : Type 0 where
    no_values : Values
    and_value : Value → Values → Values

  pub data Fields : Type 0 where
    no_fields : Fields
    and_field : String → Value → Fields → Fields

-- the entries of a dict, in insertion order
abbrev pub Object : Type 0
Object = Dict String Value

unfoldable pub to_list : Values → List Value
to_list no_values = []
to_list (and_value v vs) = v ∷ to_list vs

unfoldable pub of_list : List Value → Values
of_list [] = no_values
of_list (v ∷ vs) = and_value v (of_list vs)

unfoldable pub to_object : Fields → Object
to_object no_fields = []
to_object (and_field k v fs) = (k, v) ∷ to_object fs

unfoldable pub of_object : Object → Fields
of_object [] = no_fields
of_object ((k, v) ∷ o) = and_field k v (of_object o)

-- `bool(v)`
abbrev pub truthy : Value → Bool
truthy null = false
truthy (boolean b) = b
truthy (number (pos zero)) = false
truthy (number z) = true
truthy (text s) = not (s == "")
truthy (items no_values) = false
truthy (items vs) = true
truthy (fields no_fields) = false
truthy (fields fs) = true

-- `d.get(k)`
abbrev pub lookup : Object → String → Value
lookup o k = or_else (get o k) null

pub to_list-of_list : (vs : List Value) → to_list (of_list vs) ≡ vs
unfolding to_list of_list
to_list-of_list [] = refl
to_list-of_list (v ∷ vs) = ap (λ rest. v ∷ rest) (to_list-of_list vs)

pub to_object-of_object : (o : Object) → to_object (of_object o) ≡ o
unfolding to_object of_object
to_object-of_object [] = refl
to_object-of_object ((k, v) ∷ o) = ap (λ rest. (k, v) ∷ rest) (to_object-of_object o)
