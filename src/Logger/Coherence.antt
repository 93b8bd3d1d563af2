-- ===== src/Logger/Coherence.antt =====
-- internal/logger/manager.go: the policies that the writers follow.

use tmidb_core.Base.{
  ◌≡◌, refl, sym, subst, ◌∙◌, Option, some, Text, arith, ltb, if◌then◌else◌, text_eq, text_eq_iff,
  Bool-cases, Option-cases, inl, inr,
}
use tmidb_core.Base.Dict
use tmidb_core.Base.Dict.{lookup}
use tmidb_core.Logger.{LogLevel, RetentionPolicy, ProcessWriter, Manager}
use tmidb_core.Logger.Writer.{Disk, rotate, append_entry, write}
use tmidb_core.Logger.Policies.{
  Opening, opened, failed, get_log_policy, set_log_policy, create_writer, get_writer, write_log,
  rank,
}

-- Every writer follows the policy of its component.
abbrev pub IsCoherent : Manager → Type 0
IsCoherent m =
    (j : Text) (w : ProcessWriter) → lookup j m.writers ≡ some w → w.policy ≡ get_log_policy j m

rotate-policy : (disk : Disk) (w : ProcessWriter) → (rotate disk w).0.policy ≡ w.policy
unfolding rotate
rotate-policy disk w = ground arith

append_entry-policy :
    (disk : Disk) (entry : Text) (w : ProcessWriter)
    → (append_entry disk entry w).0.policy ≡ w.policy
unfolding append_entry
append_entry-policy disk entry w = ground arith

write-policy :
    (disk : Disk) (entry : Text) (w : ProcessWriter) → (write disk entry w).0.policy ≡ w.policy
unfolding write
write-policy disk entry w = ground (
  arith,
  rotate-policy disk w,
  append_entry-policy disk entry w,
  append_entry-policy disk entry (rotate disk w).0,
)

insert-IsCoherent :
    (k : Text) (v : ProcessWriter) (m : Manager)
    → v.policy ≡ get_log_policy k m
    → IsCoherent m
    → IsCoherent (record m { writers = Dict.insert k v m.writers })
unfolding get_log_policy
insert-IsCoherent k v m same all j w h = elim (Bool-cases (text_eq k j)) [
  | inl e ↦
      let it : v ≡ w = ground (arith, Dict.lookup-insert k j v m.writers, e, h) in
      subst (λ i. w.policy ≡ get_log_policy i m) ((text_eq_iff k j).0 e)
        (subst (λ x. x.policy ≡ get_log_policy k m) it same)
  | inr e ↦ all j w (sym (Dict.lookup-insert k j v m.writers ∙ rw e) ∙ h)
]

pub get_writer-IsCoherent :
    (component : Text) (opening : Opening) (m : Manager)
    → IsCoherent m
    → IsCoherent (get_writer component opening m).0
unfolding get_writer create_writer
get_writer-IsCoherent component opening m all = elim (Option-cases (lookup component m.writers)) [
  | inl e ↦ elim opening as (λ o. IsCoherent (get_writer component o m).0) [
    | failed t ↦ rw (e, get_writer) (rw (e, create_writer) all)
    | opened file size rotated ↦
        rw (e, get_writer) (rw (e, create_writer) (insert-IsCoherent component _ m refl all))
  ]
  | inr (w, e) ↦ rw (e, get_writer) all
]

get_writer_found :
    (component : Text) (opening : Opening) (m : Manager) (w : ProcessWriter)
    → (get_writer component opening m).1 ≡ some w
    → lookup component (get_writer component opening m).0.writers ≡ some w
unfolding get_writer create_writer
get_writer_found component opening m w h = elim (Option-cases (lookup component m.writers)) [
  | inl e ↦
      elim opening
          as (λ o.
            (get_writer component o m).1 ≡ some w
            → lookup component (get_writer component o m).0.writers ≡ some w) [
              | failed t ↦ λ g. absurd (ground (arith, e, g))
              | opened file size rotated ↦ λ g.
                  let v : ProcessWriter = record {
                    component = component;
                    file = file;
                    current_size = size;
                    rotation_count = 0;
                    policy = get_log_policy component m;
                    rotated = rotated;
                  } in
                  ground (
                    arith,
                    e,
                    g,
                    Dict.lookup-insert component component v m.writers,
                    text_eq_iff component component,
                  )
            ]
        h
  | inr (v, e) ↦ ground (arith, e, h)
]

pub write_log-IsCoherent :
    (marshal : Text → LogLevel → Text → Option Text) (component : Text) (level : LogLevel)
    (message : Text) (opening : Opening) (disk : Disk) (m : Manager)
    → IsCoherent m
    → IsCoherent (write_log marshal component level message opening disk m).0
unfolding write_log
write_log-IsCoherent marshal component level message opening disk m all =
    let r = get_writer component opening m in
    let after : IsCoherent r.0 = get_writer-IsCoherent component opening m all in
    elim (Bool-cases (ltb (rank level) (rank m.config.level))) [
      | inl low ↦ rw (low, write_log) all
      | inr high ↦ elim (Option-cases r.1) [
        | inl n ↦ rw (high, write_log) (rw n after)
        | inr (w, e) ↦ elim (Option-cases (marshal component level message)) [
          | inl n ↦ rw (high, write_log) (rw (e, n) after)
          | inr (entry, f) ↦
              let same : (write disk entry w).0.policy ≡ get_log_policy component r.0 =
                write-policy disk entry w
                ∙ after component w (get_writer_found component opening m w e) in
              let written = insert-IsCoherent component (write disk entry w).0 r.0 same after in
              elim (Option-cases (write disk entry w).1) [
                | inl n ↦ rw (high, write_log) (rw (e, f) (rw n written))
                | inr (t, n) ↦ rw (high, write_log) (rw (e, f) (rw n written))
              ]
        ]
      ]
    ]

policy_after :
    (component j : Text) (policy : RetentionPolicy) (m : Manager)
    → get_log_policy j (set_log_policy component policy m) ≡ (
        if text_eq component j then record policy { component = component } else get_log_policy j m)
unfolding set_log_policy get_log_policy
policy_after component j policy m =
    ground
      (arith, Dict.lookup-insert component j (record policy { component = component }) m.policies)

writer_after :
    (component j : Text) (policy : RetentionPolicy) (m : Manager) (w : ProcessWriter)
    → lookup j (set_log_policy component policy m).writers ≡ some w
    → (v : ProcessWriter) × (lookup j m.writers ≡ some v)
      × (w.policy
          ≡ (if text_eq component j then record policy { component = component } else v.policy))
unfolding set_log_policy
writer_after component j policy m w h =
    let p : RetentionPolicy = record policy { component = component } in
    elim (Option-cases (lookup component m.writers)) [
      | inl n ↦ elim (Bool-cases (text_eq component j)) [
        | inl e ↦ absurd (ground (arith, n, h, (text_eq_iff component j).0 e))
        | inr e ↦ (w, ground (arith, n, h), rw e)
      ]
      | inr (v, f) ↦ elim (Bool-cases (text_eq component j)) [
        | inl e ↦ (
          v,
          subst (λ k. lookup k m.writers ≡ some v) ((text_eq_iff component j).0 e) f,
          rw e (
              ground (
                arith,
                f,
                h,
                e,
                Dict.lookup-insert component j (record v { policy = p }) m.writers,
              )),
        )
        | inr e ↦ (
          w,
          ground
              (arith, f, h, e, Dict.lookup-insert component j (record v { policy = p }) m.writers),
          rw e,
        )
      ]
    ]

pub set_log_policy-IsCoherent :
    (component : Text) (policy : RetentionPolicy) (m : Manager)
    → IsCoherent m
    → IsCoherent (set_log_policy component policy m)
set_log_policy-IsCoherent component policy m all j w h =
    let (v, found, follows) = writer_after component j policy m w h in
    follows ∙ ground (arith, policy_after component j policy m, all j v found)
