-- ===== src/Rate/Options.antt =====
-- `extractLogOptions`: no field is lost, the order stays, and the last option of a kind wins.
use kit_logger.Base.{◌≡◌, refl, List, [], ◌∷◌, ◌++◌, String, Option, none, some, sym, ◌∙◌}
use kit_logger.Rate.Defs.{
  RateLimitOpt, Arg, with_rate_limit, with_counter, field, Extracted, extract_step, extract_loop,
  extract_log_options,
}
use mathlib.Core.List.{append_assoc, append-nil}

module _ {A : Type 0} where
  -- the fields among the arguments, in order
  unfoldable pub fields : List (Arg A) → List (Arg A)
  fields [] = []
  fields (with_rate_limit o ∷ rest) = fields rest
  fields (with_counter name ∷ rest) = fields rest
  fields (field a ∷ rest) = field a ∷ fields rest

  -- the last option of each kind, or the given one
  pub last_rate_limit : Option RateLimitOpt → List (Arg A) → Option RateLimitOpt
  last_rate_limit d [] = d
  last_rate_limit d (with_rate_limit o ∷ rest) = last_rate_limit (some o) rest
  last_rate_limit d (with_counter name ∷ rest) = last_rate_limit d rest
  last_rate_limit d (field a ∷ rest) = last_rate_limit d rest

  pub last_counter : Option String → List (Arg A) → Option String
  last_counter d [] = d
  last_counter d (with_rate_limit o ∷ rest) = last_counter d rest
  last_counter d (with_counter name ∷ rest) = last_counter (some name) rest
  last_counter d (field a ∷ rest) = last_counter d rest

  extract_loop_lem :
      (x : Extracted A) (args : List (Arg A))
      → ((extract_loop x args).filtered ≡ x.filtered ++ fields args)
        × ((extract_loop x args).rate_limit ≡ last_rate_limit x.rate_limit args)
        × ((extract_loop x args).counter ≡ last_counter x.counter args)
  unfolding extract_loop extract_step fields last_rate_limit last_counter
  extract_loop_lem x [] = (sym (append-nil x.filtered), refl, refl)
  extract_loop_lem x (with_rate_limit o ∷ rest) =
      extract_loop_lem (record x { rate_limit = some o }) rest
  extract_loop_lem x (with_counter name ∷ rest) =
      extract_loop_lem (record x { counter = some name }) rest
  extract_loop_lem x (field a ∷ rest) =
      let (f, r, c) = extract_loop_lem (record x { filtered = x.filtered ++ field a ∷ [] }) rest in
      (f ∙ append_assoc x.filtered (field a ∷ []) (fields rest), r, c)

  -- The filtered arguments are the fields in their order, and the options are the last given.
  pub extract_log_options_lem :
      (args : List (Arg A))
      → ((extract_log_options args).filtered ≡ fields args)
        × ((extract_log_options args).rate_limit ≡ last_rate_limit none args)
        × ((extract_log_options args).counter ≡ last_counter none args)
  unfolding extract_log_options
  extract_log_options_lem args =
      extract_loop_lem (record { filtered = []; rate_limit = none; counter = none }) args
