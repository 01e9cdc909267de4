-- ===== src/Config/Settings/Defaults.antt =====
-- What loading promises, and what the defaults leave to be configured.
use verus_gateway.Base.{
  ◌<◌, ◌≡◌, ◌≢◌, ◌⊎◌, ◌↔◌, refl, true, none, [], arith, nat_eq, list_eq, length, ℕ_discrete,
  list_dec, All,
}
use verus_gateway.Base.Bytes.{lit}
use verus_gateway.Domain.Errors.{Result, ok}
use verus_gateway.Chain.{ChainsConfig, entry}
use verus_gateway.Config.{validate, one_of, valid_cache_types, valid_levels}
use verus_gateway.Config.Valid.{
  IsValid, IsComplete, validate-IsValid, validate_chains_iff, lacks_default_iff,
}
use verus_gateway.Config.Settings.{
  Settings, set_defaults, core, ReadResult, file_read, not_found, unreadable, load,
}

-- The file is read or not found.
abbrev pub IsReadable : ReadResult → Type 0
IsReadable (unreadable e) = ⊥
IsReadable _ = Unit

load-IsReadable :
    (decode : ReadResult → Settings → Result Settings) (r : ReadResult) (cfg : Settings)
    → load decode r ≡ ok cfg
    → IsReadable r × (decode r set_defaults ≡ ok cfg) × (validate (core cfg) ≡ none)
unfolding load
load-IsReadable decode (unreadable e) cfg h = absurd (cc h)
load-IsReadable decode file_read cfg h = ground arith
load-IsReadable decode not_found cfg h = ground arith

load_valid :
    (decode : ReadResult → Settings → Result Settings) (r : ReadResult) (cfg : Settings)
    → IsReadable r
    → decode r set_defaults ≡ ok cfg
    → validate (core cfg) ≡ none
    → load decode r ≡ ok cfg
unfolding load
load_valid decode (unreadable e) cfg i d v = elim i [ ]
load_valid decode file_read cfg i d v = ground arith
load_valid decode not_found cfg i d v = ground arith

-- A configuration is loaded exactly if the file can be read or does not exist, what viper decodes over
-- the defaults is that configuration, and it is valid.
pub load-eq-ok_iff :
    (decode : ReadResult → Settings → Result Settings) (r : ReadResult) (cfg : Settings)
    → (load decode r ≡ ok cfg)
      ↔ (IsReadable r × (decode r set_defaults ≡ ok cfg) × IsValid (core cfg))
load-eq-ok_iff decode r cfg = (
  λ h. let (i, d, v) = load-IsReadable decode r cfg h in (i, d, (validate-IsValid (core cfg)).0 v),
  λ (i, d, v). load_valid decode r cfg i d ((validate-IsValid (core cfg)).1 v),
)

default_cache : one_of (lit "filesystem") valid_cache_types ≡ true
unfolding one_of valid_cache_types lit ℕ_discrete list_dec
default_cache = refl

default_level : one_of (lit "info") valid_levels ≡ true
unfolding one_of valid_levels lit ℕ_discrete list_dec
default_level = refl

-- Over the defaults, a configuration is valid exactly if it has a chain, each enabled chain has what it
-- needs, and the default chain is named nowhere or is one of the chains.
pub validate-defaults_iff :
    (c : ChainsConfig)
    → (validate (core (record set_defaults { chains = c })) ≡ none) ↔ (
        (0 < length c.chains)
        × All (λ row. row.1.enabled ≡ true → IsComplete row.1) c.chains
        × ((c.default ≡ []) ⊎ (entry c.default c.chains ≢ none)))
unfolding validate set_defaults core
validate-defaults_iff c =
    let chains = validate_chains_iff c.chains in
    let named = lacks_default_iff c in
    (
      λ h. (
        ground arith,
        chains.0 (ground (arith, default_cache, default_level)),
        named.0 (ground arith),
      ),
      λ (some_chain, complete, name).
          ground (arith, default_cache, default_level, chains.1 complete, named.1 name),
    )
