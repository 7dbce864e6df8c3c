-- ===== src/Command/Logging/Derived.antt =====
-- cmd/donut-server/logging.go: newLogger, and the handlers that are derived from its own. slog is given:
-- `Base` are its handlers, with what they do. The samplers stand in a store, and a sampling handler has the
-- address of its own.
use distributed_donut.Prelude.{
  ℕ, List, [], ◌∷◌, Option, Bool, if◌then◌else◌, ◌==◌, ◌≡◌, refl, ap, ◌∙◌, ==_refl, Error,
  Bool-cases, inl, inr,
}
use distributed_donut.Command.Logging.{ℤ, leb_int, pos, Record, Sampler, new_sampler, handle}
use distributed_donut.Command.Logging.Sampled.{
  Call, handle_all, handle_all-new_sampler, sampled, write_all, magnitude,
}
use Prim.Native.String.{String}

pub record SamplingHandler {ℓ} (Base : Type ℓ) : Type ℓ where
  pub base : Base
  pub sampler : ℕ

pub data Derivation {ℓ} (Attr : Type ℓ) : Type ℓ where
  by_attrs : (list : List Attr) → Derivation Attr
  by_group : (name : String) → Derivation Attr

-- What is logged: to the handler that is derived so, at a time.
pub record Entry {ℓ} (Attr : Type ℓ) : Type ℓ where
  pub derivations : List (Derivation Attr)
  pub entry : Record
  pub now : ℕ

unfoldable pub set_sampler : (ℕ → Sampler) → ℕ → Sampler → ℕ → Sampler
set_sampler store a s b = if b == a then s else store b

-- `newLogger`, with the text handler of a level, and the address of the new sampler
unfoldable pub new_logger {ℓ} :
    {Base : Type ℓ}
    → (text_handler : ℤ → Base) → (level interval : ℤ) (a : ℕ) → (ℕ → Sampler)
    → SamplingHandler Base × (ℕ → Sampler)
unfolding new_sampler set_sampler
new_logger text_handler level interval a store =
    (record { base = text_handler level; sampler = a }, set_sampler store a (new_sampler interval))

module _ {ℓ κ μ} {Base : Type ℓ} {Attr : Type κ} {Output : Type μ} (base_enabled : Base → ℤ → Bool)
    (base_handle : Base → Record → Output → Option Error × Output)
    (base_with_attrs : Base → List Attr → Base) (base_with_group : Base → String → Base) where
  unfoldable enabled : SamplingHandler Base → ℤ → Bool
  enabled h level = base_enabled h.base level

  unfoldable pub with_attrs : SamplingHandler Base → List Attr → SamplingHandler Base
  with_attrs h list = record { base = base_with_attrs h.base list; sampler = h.sampler }

  unfoldable pub with_group : SamplingHandler Base → String → SamplingHandler Base
  with_group h name = record { base = base_with_group h.base name; sampler = h.sampler }

  -- the handlers that a handler leads to
  unfoldable pub derive : SamplingHandler Base → List (Derivation Attr) → SamplingHandler Base
  unfolding with_attrs with_group
  derive h [] = h
  derive h (by_attrs list ∷ more) = derive (with_attrs h list) more
  derive h (by_group name ∷ more) = derive (with_group h name) more

  derive-sampler :
      (h : SamplingHandler Base) (list : List (Derivation Attr))
      → (derive h list).sampler ≡ h.sampler
  unfolding derive with_attrs with_group
  derive-sampler h [] = refl
  derive-sampler h (by_attrs list ∷ more) = derive-sampler (with_attrs h list) more
  derive-sampler h (by_group name ∷ more) = derive-sampler (with_group h name) more

  -- The logger asks a handler whether a level is enabled, and gives it the records of those that are.
  unfoldable pub log_all :
      SamplingHandler Base → List (Entry Attr) → (ℕ → Sampler) → Output → Output
  unfolding derive enabled handle set_sampler
  log_all h [] store out = out
  log_all h (e ∷ entries) store out =
      let g = derive h e.derivations in
      let skipped = log_all h entries store out in
      let (_, s, out') = handle (base_handle g.base) e.entry e.now (store g.sampler) out in
      let logged = log_all h entries (set_sampler store g.sampler s) out' in
      if enabled g e.entry.level then logged else skipped

  -- the calls of the base handlers that the entries would come to without a sampler
  unfoldable pub reached : SamplingHandler Base → List (Entry Attr) → List (Call Output)
  unfolding derive enabled
  reached h [] = []
  reached h (e ∷ entries) =
      let g = derive h e.derivations in
      let rest = reached h entries in
      if enabled g e.entry.level
      then record { base = base_handle g.base; entry = e.entry; now = e.now } ∷ rest
      else rest

  set_sampler_same : (store : ℕ → Sampler) (a : ℕ) (s : Sampler) → set_sampler store a s a ≡ s
  unfolding set_sampler
  set_sampler_same store a s = rw (==_refl a) refl

  log_all-handle_all :
      (h : SamplingHandler Base) (entries : List (Entry Attr)) (store : ℕ → Sampler) (out : Output)
      → log_all h entries store out ≡ handle_all (reached h entries) (store h.sampler) out
  unfolding log_all reached handle_all
  log_all-handle_all h [] store out = refl
  log_all-handle_all h (e ∷ entries) store out =
      elim (Bool-cases (enabled (derive h e.derivations) e.entry.level)) [
        | inl on ↦
            let g = derive h e.derivations in
            let r = handle (base_handle g.base) e.entry e.now (store h.sampler) out in
            rw (on, derive-sampler h e.derivations)
              (log_all-handle_all h entries (set_sampler store h.sampler r.1) r.2
                ∙ ap (λ s. handle_all (reached h entries) s r.2)
                    (set_sampler_same store h.sampler r.1))
        | inr off ↦ rw off (log_all-handle_all h entries store out)
      ]

  -- Of what is logged through the handlers that newLogger's own leads to by WithAttrs and WithGroup, in any
  -- order, and at a level that the handler enables, the base handlers write every record above the level
  -- debug, and of the debug records those whose message none of the handlers wrote less than an interval
  -- before; with an interval of at most nothing they write all.
  pub log_all-new_logger :
      (text_handler : ℤ → Base) (level interval : ℤ) (a : ℕ) (store : ℕ → Sampler)
      (entries : List (Entry Attr)) (out : Output)
      → let (h, store') = new_logger text_handler level interval a store in
        log_all h entries store' out
        ≡ write_all
            (if leb_int interval (pos 0)
              then reached h entries
              else sampled (magnitude interval) [] (reached h entries))
            out
  unfolding new_logger
  log_all-new_logger text_handler level interval a store entries out =
      let h : SamplingHandler Base = record { base = text_handler level; sampler = a } in
      let store' = set_sampler store a (new_sampler interval) in
      log_all-handle_all h entries store' out
      ∙ ap (λ s. handle_all (reached h entries) s out)
          (set_sampler_same store a (new_sampler interval))
      ∙ handle_all-new_sampler interval (reached h entries) out
