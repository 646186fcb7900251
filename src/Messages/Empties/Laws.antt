-- ===== src/Messages/Empties/Laws.antt =====
-- command_router.py, `normalize_messages`: which messages of the request are left.
use heimdall_gateway.Prelude.{
  String, ◌≡◌, refl, ap, inl, inr, false, not, ◌&&◌, Option, none, some, List, [], ◌∷◌, map,
  if◌then◌else◌, Bool-cases, and_left, nat_key, string_key, filter,
}
use heimdall_gateway.Messages.Empties.{
  sanitized, is_empty_user, collapse_empties, normalize_messages,
}
use heimdall_gateway.Messages.{Message, messages_of}
use heimdall_gateway.Value.{Value}

module _ (show : Value → String) where
  -- no message of the list and its neighbour are both user messages without text
  abbrev pub Apart : Option Message → List Message → Type 0
  Apart last [] = Unit
  Apart last (m ∷ ms) =
      ((is_empty_user show m && elim last [ none ↦ false | some l ↦ is_empty_user show l ]) ≡ false)
      × Apart (some m) ms

  collapse_empties-Apart :
      (last : Option Message) (ms : List Message) → Apart last (collapse_empties show last ms)
  unfolding collapse_empties
  collapse_empties-Apart last [] = tt
  collapse_empties-Apart last (m ∷ ms) =
      elim (Bool-cases
        (is_empty_user show m && elim last [ none ↦ false | some l ↦ is_empty_user show l ])) [
          | inl e ↦ rw e (collapse_empties-Apart last ms)
          | inr e ↦ rw e (e, collapse_empties-Apart (some m) ms)
        ]

  others-collapse_empties :
      (last : Option Message) (ms : List Message)
      → filter (λ m. not (is_empty_user show m)) (collapse_empties show last ms)
        ≡ filter (λ m. not (is_empty_user show m)) ms
  unfolding collapse_empties
  others-collapse_empties last [] = refl
  others-collapse_empties last (m ∷ ms) =
      elim (Bool-cases
        (is_empty_user show m && elim last [ none ↦ false | some l ↦ is_empty_user show l ])) [
          | inl e ↦
              rw
                (
                  e,
                  and_left (is_empty_user show m)
                      (elim last [ none ↦ false | some l ↦ is_empty_user show l ]) e,
                )
                (others-collapse_empties last ms)
          | inr e ↦ rw e (
              ap (λ rest. if not (is_empty_user show m) then m ∷ rest else rest)
                (others-collapse_empties (some m) ms))
        ]

-- No two neighbours of the result are user messages without text, and the other messages are those
-- of the request, cleaned, in their order.
pub normalize_messages_order :
    (clean : String → String) (show : Value → String) (messages : Value)
    → Apart show none (normalize_messages clean show messages)
      × (filter (λ m. not (is_empty_user show m)) (normalize_messages clean show messages)
          ≡ filter (λ m. not (is_empty_user show m)) (map (sanitized clean) (messages_of messages)))
unfolding normalize_messages
normalize_messages_order clean show messages = (
  collapse_empties-Apart show none (map (sanitized clean) (messages_of messages)),
  others-collapse_empties show none (map (sanitized clean) (messages_of messages)),
)
