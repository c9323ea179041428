-- ===== src/Umd/Tests.antt =====
-- Selectors of some names.
use proto_scala.Common.{◌≡◌, refl, true, none, some, codes}
use proto_scala.Umd.Selector.{
  smalltalk_selector, arity_of, is_family_prefix, arity_of-smalltalk_selector, provider_spec_for,
  alias_of_spec,
}

two_keywords : smalltalk_selector (codes "at_put") 2 ≡ some (codes "at:put:")
unfolding smalltalk_selector
two_keywords = refl

one_keyword : smalltalk_selector (codes "add_item") 1 ≡ some (codes "add_item:")
unfolding smalltalk_selector
one_keyword = refl

too_few_parts : smalltalk_selector (codes "put") 2 ≡ none
unfolding smalltalk_selector
too_few_parts = refl

python_is_one : is_family_prefix (codes "py") ≡ true
unfolding is_family_prefix
python_is_one = refl

arity_of-smalltalk_selector_example : arity_of (codes "at:put:") ≡ 2
unfolding smalltalk_selector
arity_of-smalltalk_selector_example =
    arity_of-smalltalk_selector (codes "at_put") 2 (codes "at:put:") refl

python_alias : alias_of_spec (provider_spec_for (codes "py")) ≡ codes "py"
unfolding alias_of_spec provider_spec_for
python_alias = refl
