-- ===== src/Supervisor/Settings.antt =====
-- internal/supervisor/supervisor.go: what the messages make of the settings.
use tmidb_core.Base.{
  ◌≡◌, refl, sym, ap, ◌∙◌, ℤ, Bool, true, false, List, [], ◌∷◌, Option, none, some, Text, is_empty,
  text_eq, text_eq_iff, text_eq_refl, if◌then◌else◌, arith, Bool-cases, Option-cases, inl, inr,
}
use tmidb_core.Ipc.{Response, new_response}
use tmidb_core.Supervisor.{Config}
use tmidb_core.Supervisor.Store.{
  settings, handle_config_get, Given, string, number, ConfigReply, failure_reply, success_reply,
  set_string, set_port, not_modifiable, set_key, handle_config_set,
}
use tmidb_core.Supervisor.Keys.{
  Key, postgresql_port, nats_port, seaweedfs_port, log_dir, log_level, key_text, all_keys, find_key,
  switch_key, Shown, text, int, show_setting,
}

abbrev pub same_key : Key → Key → Bool
same_key j k = text_eq (key_text j) (key_text k)

module _ {F : Type 0} (to_int : F → ℤ) where
  -- What a value that a setting takes is shown as.
  unfoldable pub taken : Key → Given F → Option Shown
  taken log_level (string t) = some (text t)
  taken log_dir (string t) = some (text t)
  taken postgresql_port (number n) = some (int (to_int n))
  taken nats_port (number n) = some (int (to_int n))
  taken seaweedfs_port (number n) = some (int (to_int n))
  taken _ _ = none

  set_key-show :
      (id : Text) (k j : Key) (v : Given F) (c : Config)
      → show_setting (set_key to_int id k v c).0 j ≡ (elim (taken k v) [
        | none ↦ show_setting c j
        | some s ↦ if same_key k j then s else show_setting c j
      ])
  unfolding set_key set_string set_port taken show_setting key_text text_eq
  set_key-show id k j v c = ground arith

pub find_key-key_text :
    (t : Text) (ks : List Key) (k : Key) → find_key t ks ≡ some k → t ≡ key_text k
unfolding find_key
find_key-key_text t [] k h = absurd (cc)
find_key-key_text t (j ∷ ks) k h = elim (Bool-cases (text_eq t (key_text j))) [
  | inl e ↦
      let found : some j ≡ some k = rw e at h in
      let is : j ≡ k = cc in rw (sym is) ((text_eq_iff t (key_text j)).0 e)
  | inr e ↦ find_key-key_text t ks k (rw e at h)
]

pub switch_key-key_text : (t : Text) (k : Key) → switch_key t ≡ some k → t ≡ key_text k
unfolding switch_key
switch_key-key_text t k h = find_key-key_text t all_keys k h

is_empty-key_text : (k : Key) → is_empty (key_text k) ≡ false
unfolding key_text
is_empty-key_text k = ground arith

get-switch_key :
    (id key : Text) (k : Key) (c : Config)
    → switch_key key ≡ some k
    → handle_config_get id (some key) c ≡ success_reply id (settings ((key, show_setting c k) ∷ []))
unfolding handle_config_get
get-switch_key id key k c h =
    let full : is_empty key ≡ false = rw (switch_key-key_text key k h) (is_empty-key_text k) in
    rw (full, handle_config_get) (rw h refl)

-- What a request to set a setting does, by what the setting takes of the value.
abbrev pub SetTo : Text → Text → Config → Config × Response ConfigReply → Option Shown → Type 0
SetTo id key c r none = (r.0 ≡ c) × (r.1.success ≡ false)
SetTo id key c r (some s) =
    (r.1.success ≡ true)
    × (handle_config_get id (some key) r.0 ≡ success_reply id (settings ((key, s) ∷ [])))
    × ((j : Key) → show_setting r.0 j ≡ (if text_eq key (key_text j) then s else show_setting c j))

module _ {F : Type 0} (to_int : F → ℤ) where
  abbrev pub taken_at : Option Key → Given F → Option Shown
  taken_at none v = none
  taken_at (some k) v = taken to_int k v

  set_key-success :
      (id : Text) (k : Key) (v : Given F) (c : Config)
      → (set_key to_int id k v c).1.success
        ≡ (elim (taken to_int k v) [ none ↦ false | some s ↦ true ])
  unfolding set_key set_string set_port taken failure_reply success_reply new_response
      not_modifiable
  set_key-success id k v c = ground arith

  set_key-refused :
      (id : Text) (k : Key) (v : Given F) (c : Config)
      → taken to_int k v ≡ none
      → (set_key to_int id k v c).0 ≡ c
  unfolding set_key set_string set_port taken
  set_key-refused id k v c h = ground arith

  -- At a setting that takes the value.
  set_key-SetTo :
      (id key : Text) (k : Key) (v : Given F) (c : Config) (s : Shown)
      → switch_key key ≡ some k
      → taken to_int k v ≡ some s
      → SetTo id key c (set_key to_int id k v c) (some s)
  set_key-SetTo id key k v c s h t =
      let named = switch_key-key_text key k h in
      let shows : (j : Key)
          → show_setting (set_key to_int id k v c).0 j
            ≡ (if text_eq key (key_text j) then s else show_setting c j) =
        λ j. rw named (set_key-show to_int id k j v c ∙ rw t refl) in
      (
        set_key-success id k v c ∙ rw t refl,
        get-switch_key id key k (set_key to_int id k v c).0 h
            ∙ ap (λ x. success_reply id (settings ((key, x) ∷ [])))
                (shows k ∙ rw named (rw (text_eq_refl (key_text k)) refl)),
        shows,
      )

  set_key-none :
      (id key : Text) (k : Key) (v : Given F) (c : Config)
      → taken to_int k v ≡ none
      → SetTo id key c (set_key to_int id k v c) none
  set_key-none id key k v c t = (set_key-refused id k v c t, set_key-success id k v c ∙ rw t refl)

  -- A request to set a setting succeeds exactly when there is a setting of this name that takes a
  -- value of this type. Then the setting is answered with the value, and every other setting is
  -- as before; a request that fails changes nothing.
  pub handle_config_set_lem :
      (id key : Text) (v : Given F) (c : Config)
      → SetTo id key c
          (handle_config_set to_int id (some key) (some v) c)
          (taken_at (switch_key key) v)
  unfolding handle_config_set not_modifiable failure_reply new_response
  handle_config_set_lem id key v c = elim (Option-cases (switch_key key)) [
    | inl e ↦ rw (e, handle_config_set) (refl, refl)
    | inr (k, e) ↦ elim (Option-cases (taken to_int k v)) [
      | inl t ↦ rw (e, handle_config_set) (rw t (set_key-none id key k v c t))
      | inr (s, t) ↦ rw (e, handle_config_set) (rw t (set_key-SetTo id key k v c s e t))
    ]
  ]
