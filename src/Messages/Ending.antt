-- ===== src/Messages/Ending.antt =====
-- _cli_impl.py, `_normalize_trailing_assistant_messages_for_llamacpp`: how the result ends, and that
-- the two passes together give what the chat templates accept.
use heimdall_gateway.Prelude.{
  ◌≤◌, min, String, ◌≡◌, refl, sym, ap, ◌∙◌, ◌⊎◌, inl, inr, Bool, true, false, not, ◌&&◌, ◌||◌,
  none, some, List, [], ◌∷◌, ◌++◌, arith, eq_iff, Bool-cases, ◌==◌, nat_key, string_key, length,
  is_empty, any, filter, drop_first, All, weaken, append-All, append-All_left,
}
use heimdall_gateway.Messages.Trailing.{
  is_assistant, split_tail, is_vacant, lacks, fill, merge_run, calls_tools, merge_trailing,
  normalize_trailing_assistant_messages_for_llamacpp, llamacpp_messages,
}
use heimdall_gateway.Messages.System.{is_privileged, normalize_system_messages_for_llamacpp}
use heimdall_gateway.Messages.Order.{normalize_system_messages_for_llamacpp_order}
use heimdall_gateway.Messages.{Message, messages_of, role, merge_chat_message_content}
use heimdall_gateway.Value.{Value, Object, lookup}
use heimdall_gateway.Dict.{get, put, get-put}

fill-role :
    (entries : Object) (merged : Message) → get (fill merged entries) "role" ≡ get merged "role"
unfolding fill
fill-role [] merged = refl
fill-role ((k, v) ∷ entries) merged =
    ground (
      arith,
      fill-role entries merged,
      fill-role entries (put merged k v),
      get-put merged k "role" v,
    )

nothing_before : (ms : List Message) (b : Bool) → is_empty ms && b ≡ true → ms ≡ []
nothing_before [] b e = refl
nothing_before (m ∷ ms) b e = ground arith

drop_first-All :
    (P : Message → Type 0) (before run : List Message) (last : Message)
    → All P (drop_first (before ++ run))
    → P last
    → All P (drop_first (before ++ last ∷ []))
drop_first-All P [] run last holds good = tt
drop_first-All P (m ∷ before) run last holds good =
    append-All P before (last ∷ []) (append-All_left P before run holds) (good, tt)

module _ (show : Value → String) where
  assistant-merge_run :
      (ms : List Message) (merged : Message)
      → is_assistant show (merge_run show merged ms) ≡ is_assistant show merged
  unfolding is_assistant merge_run role
  assistant-merge_run [] merged = refl
  assistant-merge_run (m ∷ ms) merged =
      let content =
        merge_chat_message_content show (lookup merged "content") (lookup m "content") in
      assistant-merge_run ms (fill (put merged "content" content) m)
      ∙ rw (fill-role m (put merged "content" content), get-put merged "content" "role" content)
          refl

  split_tail-append : (ms : List Message) → (split_tail show ms).0 ++ (split_tail show ms).1 ≡ ms
  unfolding split_tail
  split_tail-append [] = refl
  split_tail-append (m ∷ ms) =
      elim (Bool-cases (is_empty (split_tail show ms).0 && is_assistant show m)) [
        | inl e ↦
            rw
              (
                e,
                (ap (λ before. before ++ (split_tail show ms).1) (sym (nothing_before _ _ e))
                    ∙ split_tail-append ms),
              )
              refl
        | inr e ↦ rw e (ap (λ rest. m ∷ rest) (split_tail-append ms))
      ]

  -- one message after the last that is no assistant's
  split_tail-merged :
      (ms : List Message) (merged : Message)
      → is_assistant show merged ≡ true
      → split_tail show ((split_tail show ms).0 ++ merged ∷ [])
        ≡ ((split_tail show ms).0, merged ∷ [])
  unfolding split_tail
  split_tail-merged [] merged e = rw e refl
  split_tail-merged (m ∷ ms) merged e =
      elim (Bool-cases (is_empty (split_tail show ms).0 && is_assistant show m)) [
        | inl joins ↦ rw (joins, e) refl
        | inr stays ↦ rw (stays, split_tail-merged ms merged e, stays) refl
      ]

  -- the run of the result: one message for a run that calls no tool, or that run itself
  abbrev pub Ends : List Message → List Message → Type 0
  Ends ms out =
      ((split_tail show out).0 ≡ (split_tail show ms).0)
      × ((length (split_tail show out).1 ≡ min 1 (length (split_tail show ms).1))
          ⊎ ((any calls_tools (split_tail show ms).1 ≡ true)
              × ((split_tail show out).1 ≡ (split_tail show ms).1)))

  short_or_calls :
      (ms out : List Message)
      → ((length (split_tail show out).1 ≡ min 1 (length (split_tail show ms).1))
          ⊎ ((any calls_tools (split_tail show ms).1 ≡ true)
              × ((split_tail show out).1 ≡ (split_tail show ms).1)))
      → (length (split_tail show out).1 ≤ 1) ⊎ (any calls_tools (split_tail show out).1 ≡ true)
  short_or_calls ms out (inl short) = inl (omega (arith, short))
  short_or_calls ms out (inr (calls, same)) = inr (rw same calls)

  split_tail-All :
      (ms : List Message) → All (λ m. is_assistant show m ≡ true) (split_tail show ms).1
  unfolding split_tail
  split_tail-All [] = tt
  split_tail-All (m ∷ ms) =
      elim (Bool-cases (is_empty (split_tail show ms).0 && is_assistant show m)) [
        | inl e ↦ rw e (ground arith, split_tail-All ms)
        | inr e ↦ rw e (split_tail-All ms)
      ]

  merge_trailing-Ends_from :
      (ms run : List Message) → (split_tail show ms).1 ≡ run → Ends ms (merge_trailing show ms)
  unfolding merge_trailing
  merge_trailing-Ends_from ms [] e = rw (merge_trailing, e) (refl, inl (rw e refl))
  merge_trailing-Ends_from ms (first ∷ []) e = rw (merge_trailing, e) (refl, inl (rw e refl))
  merge_trailing-Ends_from ms (first ∷ second ∷ rest) e =
      elim (Bool-cases (any calls_tools (first ∷ second ∷ rest))) [
        | inl calls ↦ rw (merge_trailing, e, calls) (refl, inr (rw e (refl, refl)))
        | inr plain ↦
            rw
              (
                merge_trailing,
                e,
                plain,
                split_tail-merged ms (merge_run show first (second ∷ rest))
                    (assistant-merge_run (second ∷ rest) first ∙ (rw e at (split_tail-All ms)).0),
              )
              (refl, inl (omega arith))
      ]

  merge_trailing_settled_from :
      (ms run : List Message)
      → (split_tail show ms).1 ≡ run
      → (length run ≤ 1) ⊎ (any calls_tools run ≡ true)
      → merge_trailing show ms ≡ ms
  unfolding merge_trailing
  merge_trailing_settled_from ms [] e settled = rw (merge_trailing, e) refl
  merge_trailing_settled_from ms (first ∷ []) e settled = rw (merge_trailing, e) refl
  merge_trailing_settled_from ms (first ∷ second ∷ rest) e (inl short) = absurd (omega arith)
  merge_trailing_settled_from ms (first ∷ second ∷ rest) e (inr calls) =
      rw (merge_trailing, e, calls) refl

  -- what stands behind the first message stays, but for the run
  merge_trailing-All_from :
      (P : Message → Type 0) (ms run : List Message)
      → (split_tail show ms).1 ≡ run
      → ((m : Message) → is_assistant show m ≡ true → P m)
      → All P (drop_first ms)
      → All P (drop_first (merge_trailing show ms))
  unfolding merge_trailing
  merge_trailing-All_from P ms [] e plain holds = rw (merge_trailing, e) holds
  merge_trailing-All_from P ms (first ∷ []) e plain holds = rw (merge_trailing, e) holds
  merge_trailing-All_from P ms (first ∷ second ∷ rest) e plain holds =
      elim (Bool-cases (any calls_tools (first ∷ second ∷ rest))) [
        | inl calls ↦ rw (merge_trailing, e, calls) holds
        | inr bare ↦
            rw (merge_trailing, e, bare)
              (drop_first-All P (split_tail show ms).0 (split_tail show ms).1 _
                (rw (split_tail-append ms) holds)
                (plain _
                  (assistant-merge_run (second ∷ rest) first ∙ (rw e at (split_tail-All ms)).0)))
      ]

  assistant_plain : (m : Message) → is_assistant show m ≡ true → is_privileged show m ≡ false
  unfolding is_assistant is_privileged
  assistant_plain m e = rw ((eq_iff (role show m) "assistant").0 e) refl

-- For any list of messages, the messages before the final run of assistant messages stay what they
-- are, and the final run of the result is one message, none if there was none, or the run as it was,
-- with a message that calls tools.
pub normalize_trailing_assistant_messages_for_llamacpp-Ends :
    (show : Value → String) (messages : Value)
    → Ends show
        (messages_of messages)
        (normalize_trailing_assistant_messages_for_llamacpp show messages)
unfolding normalize_trailing_assistant_messages_for_llamacpp
normalize_trailing_assistant_messages_for_llamacpp-Ends show messages =
    merge_trailing-Ends_from show (messages_of messages) _ refl

-- A second pass over the messages that the first pass made changes nothing.
pub merge_trailing-normalize_trailing_assistant_messages_for_llamacpp :
    (show : Value → String) (messages : Value)
    → merge_trailing show (normalize_trailing_assistant_messages_for_llamacpp show messages)
      ≡ normalize_trailing_assistant_messages_for_llamacpp show messages
merge_trailing-normalize_trailing_assistant_messages_for_llamacpp show messages =
    merge_trailing_settled_from show _ _ refl (
      short_or_calls show (messages_of messages) _
        (normalize_trailing_assistant_messages_for_llamacpp-Ends show messages).1)

filter-append :
    (p : Message → Bool) (xs ys : List Message) → filter p (xs ++ ys) ≡ filter p xs ++ filter p ys
filter-append p [] ys = refl
filter-append p (x ∷ xs) ys = elim (Bool-cases (p x)) [
  | inl e ↦ rw e (ap (λ rest. x ∷ rest) (filter-append p xs ys))
  | inr e ↦ rw e (filter-append p xs ys)
]

filter-every :
    (p : Message → Bool) (xs : List Message) → All (λ x. p x ≡ true) xs → filter p xs ≡ xs
filter-every p [] holds = refl
filter-every p (x ∷ xs) (first, rest) = rw (first, filter-every p xs rest) refl

-- the other messages are those before the run, with the run, which has no system message
others_before_run :
    (show : Value → String) (ms : List Message)
    → filter (λ m. not (is_privileged show m)) (split_tail show ms).0 ++ (split_tail show ms).1
      ≡ filter (λ m. not (is_privileged show m)) ms
others_before_run show ms =
    let p = λ (m : Message). not (is_privileged show m) in
    let (before, run) = split_tail show ms in
    let spoken = weaken (λ m e. ap not (assistant_plain show m e)) run (split_tail-All show ms) in
    ap (λ tail. filter p before ++ tail) (sym (filter-every p run spoken))
    ∙ sym (filter-append p before run)
    ∙ ap (filter p) (split_tail-append show ms)

-- The two passes together: no system or developer message stands behind the first message of the
-- result. The other messages of the request are, in their order, those of the result before its final
-- run of assistant messages, followed by the run of assistant messages that the first pass left at
-- the end. Before the final run nothing is changed by the second pass; and the final run is one
-- message if that run is not empty, none if it is, or that run as it was, which then has a message
-- that calls tools.
pub llamacpp_messages_order :
    (show : Value → String) (messages : Value)
    → All (λ m. is_privileged show m ≡ false) (drop_first (llamacpp_messages show messages))
      × Ends show
          (normalize_system_messages_for_llamacpp show messages)
          (llamacpp_messages show messages)
      × (filter
              (λ m. not (is_privileged show m))
              (split_tail show (llamacpp_messages show messages)).0
            ++ (split_tail show (normalize_system_messages_for_llamacpp show messages)).1
          ≡ filter (λ m. not (is_privileged show m)) (messages_of messages))
unfolding llamacpp_messages
llamacpp_messages_order show messages =
    let first_pass = normalize_system_messages_for_llamacpp show messages in
    let ends = merge_trailing-Ends_from show first_pass _ refl in
    (
      merge_trailing-All_from show (λ m. is_privileged show m ≡ false)
          (normalize_system_messages_for_llamacpp show messages) _ refl (assistant_plain show)
          (normalize_system_messages_for_llamacpp_order show messages).0,
      ends,
      ap
            (λ before.
              filter (λ m. not (is_privileged show m)) before ++ (split_tail show first_pass).1)
            ends.0
          ∙ others_before_run show first_pass
          ∙ (normalize_system_messages_for_llamacpp_order show messages).1,
    )

lacks_alike :
    (a b : Message) (k : String) → get a k ≡ get b k → lacks b k ≡ false → lacks a k ≡ false
unfolding lacks
lacks_alike a b k e has = ap (λ v. elim v [ none ↦ true | some w ↦ is_vacant w ]) e ∙ has

fill-first :
    (entries : Object) (merged : Message) (k : String)
    → lacks merged k ≡ false
    → get (fill merged entries) k ≡ get merged k
unfolding fill lacks
fill-first [] merged k has = refl
fill-first ((j, v) ∷ entries) merged k has =
    elim (Bool-cases (not (j == "role" || j == "content") && lacks merged j)) [
      | inl e ↦
          let other : (j == k) ≡ false = ground (arith, eq_iff j k) in
          rw (fill, e)
            (fill-first entries (put merged j v) k
                (lacks_alike (put merged j v) merged k (rw (get-put merged j k v, other) refl) has)
              ∙ (get-put merged j k v ∙ rw other refl))
      | inr e ↦ rw (fill, e) (fill-first entries merged k has)
    ]

-- The merged message keeps each entry of the first message of the run, other than its content, whose
-- value is not None, "" or []: what the later messages say under that key is not in the result.
pub merge_run-first :
    (show : Value → String) (ms : List Message) (first : Message) (k : String)
    → (k == "content") ≡ false
    → lacks first k ≡ false
    → get (merge_run show first ms) k ≡ get first k
unfolding merge_run lacks
merge_run-first show [] first k other has = refl
merge_run-first show (m ∷ ms) first k other has =
    let content = merge_chat_message_content show (lookup first "content") (lookup m "content") in
    let apart : ("content" == k) ≡ false = ground (arith, eq_iff "content" k, eq_iff k "content") in
    let put_has : get (put first "content" content) k ≡ get first k =
      rw (get-put first "content" k content, apart) refl in
    let fills : get (fill (put first "content" content) m) k ≡ get first k =
      fill-first m (put first "content" content) k (lacks_alike _ first k put_has has) ∙ put_has in
    merge_run-first show ms (fill (put first "content" content) m) k other
      (lacks_alike _ first k fills has)
    ∙ fills
