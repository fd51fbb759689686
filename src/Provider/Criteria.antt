-- ===== src/Provider/Criteria.antt =====
-- Which logs the criteria of eth_getLogs select (formatter/logs/formatter.ts).
use vechain_sdk_js.Prelude.{
  ℕ, zero, suc, ◌≤◌, ◌≡◌, refl, ap, ap₂, ◌∙◌, Bool, true, false, ◌&&◌, ◌||◌, Option, none, some,
  List, [], ◌∷◌, ◌++◌, map, get_elem?, length, arith,
}
use vechain_sdk_js.Text.{Text, text_eq}
use vechain_sdk_js.Provider.LogDetails.{EventCriteria}
use vechain_sdk_js.Provider.Logs.{
  any_topic, topic, Topic, or_undefined, first_topic, scattered, or_address, no_address,
  one_address, several_addresses, Addresses, not_array_topics, array_topics, get_topics_per_address,
  criteria_addresses, flat_criteria, get_criteria_set_for_input,
}

-- A value of a log against a member of a criterion, which any value meets where it is missing. A log
-- that has no topic at a place does not meet a topic there.
abbrev pub meets : Option Text → Option Text → Bool
meets none v = true
meets (some t) none = false
meets (some t) (some v) = text_eq t v

-- A node selects a log by a criterion, and by a set of criteria if it selects it by one of them; a set
-- of no criteria is no filter.
unfoldable pub selects : EventCriteria → Text → List Text → Bool
selects c address ts =
    meets c.address (some address)
    && meets c.topic0 (get_elem? ts 0)
    && meets c.topic1 (get_elem? ts 1)
    && meets c.topic2 (get_elem? ts 2)
    && meets c.topic3 (get_elem? ts 3)
    && meets c.topic4 (get_elem? ts 4)

unfoldable pub selects_any : List EventCriteria → Text → List Text → Bool
selects_any [] address ts = false
selects_any (c ∷ cs) address ts = selects c address ts || selects_any cs address ts

unfoldable pub selects_set : List EventCriteria → Text → List Text → Bool
unfolding selects_any
selects_set [] address ts = true
selects_set (c ∷ cs) address ts = selects_any (c ∷ cs) address ts

-- A topic of the input that is no list.
abbrev pub to_topic : Option Text → Topic
to_topic none = any_topic
to_topic (some t) = topic t

-- The address of a log is wanted.
unfoldable pub is_wanted : List Text → Text → Bool
is_wanted [] address = false
is_wanted (a ∷ as') address = text_eq a address || is_wanted as' address

unfoldable pub wants : Addresses → Text → Bool
wants no_address address = true
wants (one_address a) address = text_eq a address
wants (several_addresses as') address = is_wanted as' address

-- The first topics of a log are the wanted ones, each at its place; where none is named, any topic and
-- a missing one are.
unfoldable pub begins_with : List (Option Text) → List Text → Bool
begins_with [] ts = true
begins_with (none ∷ ws) [] = begins_with ws []
begins_with (some w ∷ ws) [] = false
begins_with (none ∷ ws) (t ∷ ts) = begins_with ws ts
begins_with (some w ∷ ws) (t ∷ ts) = text_eq w t && begins_with ws ts

selects_any-append :
    (cs ds : List EventCriteria) (address : Text) (ts : List Text)
    → selects_any (cs ++ ds) address ts ≡ (selects_any cs address ts || selects_any ds address ts)
unfolding selects_any
selects_any-append [] ds address ts = refl
selects_any-append (c ∷ cs) ds address ts = ground (arith, selects_any-append cs ds address ts)

not_array_topics-map : (ws : List (Option Text)) → not_array_topics (map to_topic ws) ≡ ws
unfolding not_array_topics
not_array_topics-map [] = refl
not_array_topics-map (none ∷ ws) = ap (λ r. none ∷ r) (not_array_topics-map ws)
not_array_topics-map (some w ∷ ws) = ap (λ r. some w ∷ r) (not_array_topics-map ws)

array_topics-map : (ws : List (Option Text)) → array_topics (map to_topic ws) ≡ []
unfolding array_topics
array_topics-map [] = refl
array_topics-map (none ∷ ws) = array_topics-map ws
array_topics-map (some w ∷ ws) = array_topics-map ws

-- The members of a criterion from a place on, against the topics of a log.
meets_from : ℕ → ℕ → List (Option Text) → List Text → Bool
meets_from i zero ws ts = true
meets_from i (suc n) ws ts =
    meets (or_undefined (get_elem? ws i)) (get_elem? ts i) && meets_from (suc i) n ws ts

meets_from-nil : (i n : ℕ) (ts : List Text) → meets_from i n [] ts ≡ true
unfolding meets_from
meets_from-nil i zero ts = refl
meets_from-nil i (suc n) ts = meets_from-nil (suc i) n ts

meets_from-suc :
    (i n : ℕ) (w : Option Text) (t : Text) (ws : List (Option Text)) (ts : List Text)
    → meets_from (suc i) n (w ∷ ws) (t ∷ ts) ≡ meets_from i n ws ts
unfolding meets_from
meets_from-suc i zero w t ws ts = refl
meets_from-suc i (suc n) w t ws ts =
    ap (λ b. meets (or_undefined (get_elem? ws i)) (get_elem? ts i) && b)
      (meets_from-suc (suc i) n w t ws ts)

meets_from-suc_nil :
    (i n : ℕ) (w : Option Text) (ws : List (Option Text))
    → meets_from (suc i) n (w ∷ ws) [] ≡ meets_from i n ws []
unfolding meets_from
meets_from-suc_nil i zero w ws = refl
meets_from-suc_nil i (suc n) w ws =
    ap (λ b. meets (or_undefined (get_elem? ws i)) none && b) (meets_from-suc_nil (suc i) n w ws)

meets_from-begins_with :
    (n : ℕ) (ws : List (Option Text)) (ts : List Text)
    → length ws ≤ n
    → meets_from 0 n ws ts ≡ begins_with ws ts
unfolding meets_from begins_with
meets_from-begins_with n [] ts h = meets_from-nil 0 n ts
meets_from-begins_with zero (w ∷ ws) ts h = absurd (omega (arith, h))
meets_from-begins_with (suc n) (none ∷ ws) [] h =
    meets_from-suc_nil 0 n none ws ∙ meets_from-begins_with n ws [] (omega (arith, h))
meets_from-begins_with (suc n) (some w ∷ ws) [] h = refl
meets_from-begins_with (suc n) (none ∷ ws) (t ∷ ts) h =
    meets_from-suc 0 n none t ws ts ∙ meets_from-begins_with n ws ts (omega (arith, h))
meets_from-begins_with (suc n) (some w ∷ ws) (t ∷ ts) h =
    ap (λ b. text_eq w t && b)
      (meets_from-suc 0 n (some w) t ws ts ∙ meets_from-begins_with n ws ts (omega (arith, h)))

and_or :
    (a b c d e f : Bool)
    → ((a && b && c && d && e && f) || false) ≡ (a && (b && (c && (d && (e && (f && true))))))
and_or a b c d e f = ground arith

or_and : (a b c : Bool) → ((a && c) || (b && c)) ≡ ((a || b) && c)
or_and a b c = ground arith

or_false : (a : Bool) → (a || false) ≡ a
or_false a = ground arith

-- The criteria of one address and of topics, each at its place.
selects_any-per_address :
    (a : Option Text) (ws : List (Option Text)) (address : Text) (ts : List Text)
    → length ws ≤ 5
    → selects_any (get_topics_per_address a (map to_topic ws)) address ts
      ≡ (meets a (some address) && begins_with ws ts)
unfolding get_topics_per_address selects_any selects begins_with meets_from
selects_any-per_address a [] address ts h = and_or (meets a (some address)) true true true true true
selects_any-per_address a (none ∷ ws) address ts h =
    rw (not_array_topics-map ws, array_topics-map ws)
      (and_or (meets a (some address)) _ _ _ _ _
        ∙ ap (λ b. meets a (some address) && b) (meets_from-begins_with 5 (none ∷ ws) ts h))
selects_any-per_address a (some w ∷ ws) address ts h =
    rw (not_array_topics-map ws, array_topics-map ws)
      (and_or (meets a (some address)) _ _ _ _ _
        ∙ ap (λ b. meets a (some address) && b) (meets_from-begins_with 5 (some w ∷ ws) ts h))

-- The criteria of one address at least are a set of one criterion at least.
selects_set-flat_criteria :
    (a : Option Text) (as' : List (Option Text)) (topics : List Topic) (address : Text)
    (ts : List Text)
    → selects_set (flat_criteria (a ∷ as') topics) address ts
      ≡ selects_any (flat_criteria (a ∷ as') topics) address ts
unfolding flat_criteria get_topics_per_address selects_set
selects_set-flat_criteria a as' topics address ts = nonempty (
    scattered a (not_array_topics topics)
    ++ map (λ t. first_topic a (some t)) (array_topics topics))
  where
    nonempty :
        (cs : List EventCriteria)
        → selects_set (or_address a cs ++ flat_criteria as' topics) address ts
          ≡ selects_any (or_address a cs ++ flat_criteria as' topics) address ts
    nonempty [] = refl
    nonempty (c ∷ cs) = refl

module _ (ws : List (Option Text)) (address : Text) (ts : List Text) (h : length ws ≤ 5) where
  several_selected :
      (as' : List Text)
      → selects_any (flat_criteria (map (λ a. some a) as') (map to_topic ws)) address ts
        ≡ (is_wanted as' address && begins_with ws ts)
  unfolding flat_criteria selects_any is_wanted
  several_selected [] = refl
  several_selected (a ∷ as') =
      selects_any-append (get_topics_per_address (some a) (map to_topic ws)) _ address ts
      ∙ ap₂ (λ x y. x || y) (selects_any-per_address (some a) ws address ts h)
          (several_selected as')
      ∙ or_and (text_eq a address) (is_wanted as' address) (begins_with ws ts)

  any_selected :
      (addresses : Addresses)
      → selects_any (get_criteria_set_for_input addresses (map to_topic ws)) address ts
        ≡ (wants addresses address && begins_with ws ts)
  unfolding get_criteria_set_for_input criteria_addresses flat_criteria wants selects_any
  any_selected no_address =
      selects_any-append (get_topics_per_address none (map to_topic ws)) [] address ts
      ∙ or_false _
      ∙ selects_any-per_address none ws address ts h
  any_selected (one_address a) =
      selects_any-append (get_topics_per_address (some a) (map to_topic ws)) [] address ts
      ∙ or_false _
      ∙ selects_any-per_address (some a) ws address ts h
  any_selected (several_addresses as') = several_selected as'

  set_selected :
      (addresses : Addresses)
      → (addresses ≡ several_addresses [] → ⊥)
      → selects_set (get_criteria_set_for_input addresses (map to_topic ws)) address ts
        ≡ selects_any (get_criteria_set_for_input addresses (map to_topic ws)) address ts
  unfolding get_criteria_set_for_input criteria_addresses
  set_selected no_address k = selects_set-flat_criteria none [] (map to_topic ws) address ts
  set_selected (one_address a) k =
      selects_set-flat_criteria (some a) [] (map to_topic ws) address ts
  set_selected (several_addresses []) k = absurd (k refl)
  set_selected (several_addresses (a ∷ as')) k =
      selects_set-flat_criteria (some a) (map (λ a. some a) as') (map to_topic ws) address ts

  -- By the criteria made of addresses, of which a list is not empty, and of up to five topics, none of
  -- them a list, a node that takes no criteria for no filter, and else selects a log by one of them,
  -- selects the logs of the wanted addresses whose first topics are the wanted ones, each at its
  -- place, where null is any topic or none.
  pub selects_set-get_criteria_set_for_input :
      (addresses : Addresses)
      → (addresses ≡ several_addresses [] → ⊥)
      → selects_set (get_criteria_set_for_input addresses (map to_topic ws)) address ts
        ≡ (wants addresses address && begins_with ws ts)
  selects_set-get_criteria_set_for_input addresses k =
      set_selected addresses k ∙ any_selected addresses
