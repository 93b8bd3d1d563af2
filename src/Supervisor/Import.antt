-- ===== src/Supervisor/Import.antt =====
-- internal/supervisor/supervisor.go: the order in which an import meets its entries, and resets.
use tmidb_core.Base.{
  ◌≡◌, refl, sym, ap, ◌∙◌, ℤ, true, false, List, [], ◌∷◌, Option, none, some, Text, is_empty,
  text_eq, text_eq_iff, if◌then◌else◌, arith, Bool-cases, Option-cases, inl, inr,
}
use tmidb_core.Base.Dict.{lookup, Distinct}
use tmidb_core.Supervisor.{Config}
use tmidb_core.Supervisor.Store.{
  Given, import_text, import_port, import_key, import_entry, import_entries, handle_config_import,
  reset_key, reset_named, handle_config_reset, set_string, set_port, set_key, handle_config_set,
}
use tmidb_core.Supervisor.Keys.{
  Key, socket_path, postgresql_path, nats_path, seaweedfs_path, postgresql_port, nats_port,
  seaweedfs_port, startup_timeout, shutdown_timeout, log_dir, log_level, key_text, switch_key,
  find_key, Shown, show_setting,
}
use tmidb_core.Supervisor.Settings.{same_key, taken, switch_key-key_text}

switch_key_self : (k : Key) → switch_key (key_text k) ≡ some k
unfolding switch_key find_key key_text text_eq
switch_key_self k = ground arith

-- A configuration is determined by what it shows.
show_setting-ext : (c d : Config) → ((j : Key) → show_setting c j ≡ show_setting d j) → c ≡ d
unfolding show_setting
show_setting-ext c d h = cc (
  h socket_path,
  h postgresql_path,
  h nats_path,
  h seaweedfs_path,
  h postgresql_port,
  h nats_port,
  h seaweedfs_port,
  h startup_timeout,
  h shutdown_timeout,
  h log_dir,
  h log_level,
)

no_setting : (key : Text) (j : Key) → switch_key key ≡ none → text_eq key (key_text j) ≡ false
no_setting key j h = elim (Bool-cases (text_eq key (key_text j))) [
  | inl e ↦
      let is : key ≡ key_text j = (text_eq_iff key (key_text j)).0 e in
      let found : switch_key key ≡ some j = rw is (switch_key_self j) in absurd (cc)
  | inr e ↦ e
]

module _ {F : Type 0} (to_int : F → ℤ) where
  -- What one entry leaves of a setting: the independent description of an import, key by key.
  abbrev pub imported : Option (Given F) → Key → Config → Shown
  imported none j c = show_setting c j
  imported (some v) j c = elim (taken to_int j v) [ none ↦ show_setting c j | some s ↦ s ]

  import_key-show :
      (key : Text) (k j : Key) (v : Given F) (c : Config)
      → show_setting (import_key to_int key k v c).0 j
        ≡ (if same_key k j then imported (some v) j c else show_setting c j)
  unfolding import_key import_text import_port taken show_setting key_text text_eq
  import_key-show key k j v c = ground arith

  import_entry-show :
      (key : Text) (j : Key) (v : Given F) (c : Config)
      → show_setting (import_entry to_int key v c).0 j
        ≡ (if text_eq key (key_text j) then imported (some v) j c else show_setting c j)
  unfolding import_entry
  import_entry-show key j v c = elim (Option-cases (switch_key key)) [
    | inl e ↦ rw (e, import_entry) (rw (no_setting key j e) refl)
    | inr (k, e) ↦
        rw (e, import_entry)
          (rw (switch_key-key_text key k e) (import_key-show (key_text k) k j v c))
  ]

  imported-other :
      (o : Option (Given F)) (j : Key) (c d : Config)
      → show_setting c j ≡ show_setting d j
      → imported o j c ≡ imported o j d
  imported-other none j c d h = h
  imported-other (some v) j c d h = elim (Option-cases (taken to_int j v)) [
    | inl e ↦ ground (arith, h)
    | inr (s, e) ↦ ground arith
  ]

  import_entries-show :
      (m : List (Text × Given F)) (j : Key) (c : Config)
      → Distinct m
      → show_setting (import_entries to_int m c).0 j ≡ imported (lookup (key_text j) m) j c
  unfolding import_entries lookup
  import_entries-show [] j c d = refl
  import_entries-show ((key, v) ∷ m) j c d =
      let c2 = (import_entry to_int key v c).0 in
      let rest = import_entries-show m j c2 d.1 in
      let first = import_entry-show key j v c in
      elim (Bool-cases (text_eq key (key_text j))) [
        | inl e ↦
            let is : key ≡ key_text j = (text_eq_iff key (key_text j)).0 e in
            let gone : lookup (key_text j) m ≡ none = rw is at d.0 in
            rw e ((rw gone at rest) ∙ (rw e at first))
        | inr e ↦ rw e (rest ∙ imported-other (lookup (key_text j) m) j c2 c (rw e at first))
      ]

  -- An import leaves the same configuration in whatever order the loop meets the entries.
  pub import-order :
      (id id2 : Text) (m n : List (Text × Given F)) (c : Config)
      → Distinct m
      → Distinct n
      → ((key : Text) → lookup key m ≡ lookup key n)
      → (handle_config_import to_int id (some m) c).0
        ≡ (handle_config_import to_int id2 (some n) c).0
  unfolding handle_config_import
  import-order id id2 m n c d e same =
      show_setting-ext (import_entries to_int m c).0 (import_entries to_int n c).0 (λ j.
        import_entries-show m j c d
        ∙ ap (λ o. imported o j c) (same (key_text j))
        ∙ sym (import_entries-show n j c e))

-- The configuration that a reset of a setting leaves.
abbrev pub after_reset : Option Key → Config → Config
after_reset none c = c
after_reset (some k) c = elim (reset_key k c) [ none ↦ c | some d ↦ d ]

reset_named-config :
    (id key : Text) (c : Config) → (reset_named id key c).0 ≡ after_reset (switch_key key) c
unfolding reset_named
reset_named-config id key c = elim (Option-cases (switch_key key)) [
  | inl e ↦ rw (e, reset_named) refl
  | inr (k, e) ↦ elim (Option-cases (reset_key k c)) [
    | inl r ↦ rw (e, reset_named) (ground arith)
    | inr (d, r) ↦ rw (e, reset_named) (ground arith)
  ]
]

is_empty-switch_key : (key : Text) → is_empty key ≡ true → switch_key key ≡ none
unfolding switch_key find_key key_text text_eq
is_empty-switch_key [] h = refl
is_empty-switch_key (b ∷ key) h = absurd (cc)

reset-config :
    (id key : Text) (c : Config)
    → (handle_config_reset id (some key) false c).0 ≡ after_reset (switch_key key) c
unfolding handle_config_reset
reset-config id key c = elim (Bool-cases (is_empty key)) [
  | inl e ↦ rw (e, handle_config_reset) (rw (is_empty-switch_key key e) refl)
  | inr e ↦ rw (e, handle_config_reset) (reset_named-config id key c)
]

module _ {F : Type 0} (to_int : F → ℤ) where
  after_reset-set_key :
      (id : Text) (k : Key) (v : Given F) (c : Config)
      → after_reset (some k) (set_key to_int id k v c).0 ≡ after_reset (some k) c
  unfolding reset_key set_key set_string set_port
  after_reset-set_key id k v c = ground arith

  after_reset-set :
      (id key : Text) (v : Option (Given F)) (c : Config)
      → after_reset (switch_key key) (handle_config_set to_int id (some key) v c).0
        ≡ after_reset (switch_key key) c
  unfolding handle_config_set
  after_reset-set id key none c = refl
  after_reset-set id key (some v) c = elim (Option-cases (switch_key key)) [
    | inl e ↦ rw (e, handle_config_set) refl
    | inr (k, e) ↦ rw (e, handle_config_set) (after_reset-set_key id k v c)
  ]

  -- A reset of a setting leaves the same configuration whether or not a request to set it came
  -- before, with a value or without.
  pub reset-set :
      (id id2 key : Text) (v : Option (Given F)) (c : Config)
      → (handle_config_reset id (some key) false (handle_config_set to_int id2 (some key) v c).0).0
        ≡ (handle_config_reset id (some key) false c).0
  reset-set id id2 key v c =
      let d = (handle_config_set to_int id2 (some key) v c).0 in
      reset-config id key d ∙ after_reset-set id2 key v c ∙ sym (reset-config id key c)
