-- ===== src/Mqtt/Topics/RoundTrip.antt =====
-- A command's topic is parsed back into its parts.
use Prim.Native.Char.{Char, code}
use text.Mathlib.TextBridge.{to_list, of_list, to_list-of_list, of_list-to_list, of_list-++}
use Prim.Native.String.{◌++◌ as join}
use local_smarthinq.Prelude.{
  ◌≡◌, refl, sym, ap, ◌∙◌, String, true, false, Option, some, List, [], ◌∷◌, ◌++◌, append_assoc,
  ◌==◌, inl, inr, arith, All, Bool-cases,
}
use local_smarthinq.Mqtt.Discovery.{node, command_topic}
use local_smarthinq.Regex.{
  letter, several, line_end, Groups, at_end, captured, with_group, one_or_more, match, fixed,
}
use local_smarthinq.Regex.Greedy.{Several, Several-All, Nowhere, more-none, one_or_more-found}
use local_smarthinq.Mqtt.Topics.{
  Classes, prefix, node_prefix, suffix, topic_pattern, Parsed, parsed_of, parse_command_topic,
}

-- `\w` does not match a slash.
abbrev pub NoSlash : Classes → Type 0
NoSlash cl = (c : Char) → cl.is_word c ≡ true → (code c == 47) ≡ false

abbrev IsWord : Classes → List Char → Type 0
IsWord cl = All (λ c. cl.is_word c ≡ true)

slash-word : (cl : Classes) → NoSlash cl → cl.is_word "/" ≡ false
slash-word cl plain = elim (Bool-cases (cl.is_word "/")) [
  | inl word ↦ absurd (ground (arith, plain "/" word))
  | inr other ↦ other
]

abbrev after_slug : List Char → Option Groups
after_slug = match (fixed suffix (line_end ∷ []))

abbrev after_node : Classes → List Char → Option Groups
after_node cl = match (letter "/" ∷ several cl.is_word ∷ fixed suffix (line_end ∷ []))

abbrev after_component : Classes → List Char → Option Groups
after_component cl = match (
    letter "/"
    ∷ fixed node_prefix
        (several cl.is_not_space ∷ letter "/" ∷ several cl.is_word ∷ fixed suffix (line_end ∷ [])))

suffix-Nowhere : (cl : Classes) → Nowhere (after_node cl) suffix
unfolding match one_or_more with_group captured
suffix-Nowhere cl = (
  rw (more-none cl.is_word after_slug ("m" ∷ "d" ∷ []) (refl, (refl, refl))) (ground arith),
  (refl, (refl, (refl, refl))),
)

word-Nowhere :
    (cl : Classes) (xs ys : List Char)
    → NoSlash cl
    → IsWord cl xs
    → Nowhere (after_node cl) ys
    → Nowhere (after_node cl) (xs ++ ys)
unfolding match
word-Nowhere cl [] ys plain word h = h
word-Nowhere cl (x ∷ xs) ys plain (now, word) h =
    (rw (plain x now) refl, word-Nowhere cl xs ys plain word h)

-- The letters of a topic are captured as they were put together.
match-topic :
    (cl : Classes) (c d s : List Char)
    → NoSlash cl
    → Several cl.is_word c
    → Several cl.is_not_space d
    → Several cl.is_word s
    → match (topic_pattern cl) (prefix ++ (c ++ "/" ∷ (node_prefix ++ (d ++ "/" ∷ (s ++ suffix)))))
      ≡ some (c ∷ d ∷ s ∷ [])
unfolding match at_end
match-topic cl c d s plain word_c full_d word_s =
    let slash = slash-word cl plain in
    let at_slug : one_or_more cl.is_word after_slug (s ++ suffix) ≡ some (s ∷ []) =
      one_or_more-found cl.is_word after_slug s suffix [] word_s refl (inl slash) in
    let at_node =
      one_or_more-found cl.is_not_space (after_node cl) d ("/" ∷ (s ++ suffix)) (s ∷ []) full_d
        at_slug
        (inr
          (word-Nowhere cl s suffix plain (Several-All cl.is_word s word_s) (suffix-Nowhere cl))) in
    one_or_more-found cl.is_word (after_component cl) c
      ("/" ∷ (node_prefix ++ (d ++ "/" ∷ (s ++ suffix)))) (d ∷ s ∷ []) word_c at_node (inl slash)

to_list-join : (s t : String) → to_list (join s t) ≡ to_list s ++ to_list t
to_list-join s t =
    sym (
      ap to_list (
        of_list-++ (to_list s) (to_list t)
        ∙ ap (λ u. join u (of_list (to_list t))) (of_list-to_list s)
        ∙ ap (join s) (of_list-to_list t)))
    ∙ to_list-of_list (to_list s ++ to_list t)

behind : (xs : List Char) (t : String) → to_list (join (of_list xs) t) ≡ xs ++ to_list t
behind xs t = to_list-join (of_list xs) t ∙ ap (λ l. l ++ to_list t) (to_list-of_list xs)

topic-letters :
    (device_id component slug : String)
    → to_list (command_topic device_id component slug)
      ≡ prefix
        ++ (to_list component
            ++ "/" ∷ (node_prefix ++ (to_list device_id ++ "/" ∷ (to_list slug ++ suffix))))
unfolding command_topic node
topic-letters d c s =
    let slug = join s (of_list suffix) in
    let below = join "/" slug in
    let at_node = join (join (of_list node_prefix) d) below in
    let slug_letters : to_list slug ≡ to_list s ++ suffix =
      to_list-join s (of_list suffix) ∙ ap (λ l. to_list s ++ l) (to_list-of_list suffix) in
    let below_letters : to_list below ≡ "/" ∷ (to_list s ++ suffix) =
      behind ("/" ∷ []) slug ∙ ap (λ l. "/" ∷ l) slug_letters in
    let node_letters : to_list at_node ≡ node_prefix ++ (to_list d ++ "/" ∷ (to_list s ++ suffix)) =
      to_list-join (join (of_list node_prefix) d) below
      ∙ ap (λ l. l ++ to_list below) (behind node_prefix d)
      ∙ append_assoc node_prefix (to_list d) (to_list below)
      ∙ ap (λ l. node_prefix ++ (to_list d ++ l)) below_letters in
    behind prefix (join c (join "/" at_node))
    ∙ ap (λ l. prefix ++ l)
        (to_list-join c (join "/" at_node)
          ∙ ap (λ l. to_list c ++ l) (behind ("/" ∷ []) at_node ∙ ap (λ l. "/" ∷ l) node_letters))

abbrev parsed : String → String → String → Option Parsed
parsed d c s = some (record { device_id = d; component = c; slug = s })

-- The topic of an entity is parsed back into the device, the component and the slug, if the
-- component and the slug are words, the device's id has no white space, and none of them is empty;
-- a slash in the device's id does no harm.
pub parse-command_topic :
    (cl : Classes) (device_id component slug : String)
    → NoSlash cl
    → Several cl.is_word (to_list component)
    → Several cl.is_not_space (to_list device_id)
    → Several cl.is_word (to_list slug)
    → parse_command_topic cl (command_topic device_id component slug)
      ≡ some (record { device_id = device_id; component = component; slug = slug })
unfolding parse_command_topic parsed_of
parse-command_topic cl d c s plain word_c full_d word_s =
    ap (λ l. parsed_of (match (topic_pattern cl) l)) (topic-letters d c s)
    ∙ ap parsed_of (match-topic cl (to_list c) (to_list d) (to_list s) plain word_c full_d word_s)
    ∙ ap (λ x. parsed x (of_list (to_list c)) (of_list (to_list s))) (of_list-to_list d)
    ∙ ap (λ x. parsed d x (of_list (to_list s))) (of_list-to_list c)
    ∙ ap (parsed d c) (of_list-to_list s)
