-- ===== src/Supervisor/Validate.antt =====
-- internal/supervisor/supervisor.go: the validation of the configuration.
use tmidb_core.Base.{
  ◌≡◌, ◌↔◌, refl, ℤ, leb_int, Bool, true, false, ◌&&◌, List, [], ◌∷◌, ◌++◌, Option, none, some,
  Text, bytes, text_eq, if◌then◌else◌, arith, Option-cases, inl, inr, All,
}
use tmidb_core.Ipc.{Response, new_response}
use tmidb_core.Supervisor.{Config}

pub data Warning : Type 0 where
  port_conflict : (service existing : Text) (port : ℤ) → Warning
  invalid_log_level : Text → Warning
  no_log_directory : Text → Warning

abbrev pub int_eq : ℤ → ℤ → Bool
int_eq a b = leb_int a b && leb_int b a

-- `portMap[port]`, the services by port
unfoldable pub service_at : ℤ → List (ℤ × Text) → Option Text
service_at p [] = none
service_at p ((q, service) ∷ m) = if int_eq q p then some service else service_at p m

-- The loop over `ports`, in the order in which it meets the services.
unfoldable pub port_conflicts : List (Text × ℤ) → List (ℤ × Text) → List Warning
port_conflicts [] seen = []
port_conflicts ((service, port) ∷ ports) seen = elim (service_at port seen) [
  | some existing ↦ port_conflict service existing port ∷ port_conflicts ports seen
  | none ↦ port_conflicts ports ((port, service) ∷ seen)
]

abbrev pub valid_levels : List Text
valid_levels = bytes "DEBUG" ∷ bytes "INFO" ∷ bytes "WARN" ∷ bytes "ERROR" ∷ []

unfoldable pub is_level : Text → List Text → Bool
is_level t [] = false
is_level t (level ∷ levels) = if text_eq t level then true else is_level t levels

unfoldable pub level_warnings : Config → List Warning
level_warnings c =
    if is_level c.log_level valid_levels then [] else invalid_log_level c.log_level ∷ []

unfoldable pub directory_warnings : Bool → Config → List Warning
directory_warnings missing c = if missing then no_log_directory c.log_dir ∷ [] else []

-- `ports`, of which the loop meets the services in any order
abbrev pub service_ports : Config → List (Text × ℤ)
service_ports c =
    (bytes "postgresql", c.postgresql_port)
    ∷ (bytes "nats", c.nats_port)
    ∷ (bytes "seaweedfs", c.seaweedfs_port)
    ∷ []

-- `order` is the order of the loop over the map, `missing` whether `os.Stat` says that the
-- directory does not exist.
unfoldable pub warnings : (List (Text × ℤ) → List (Text × ℤ)) → Bool → Config → List Warning
warnings order missing c =
    port_conflicts (order (service_ports c)) [] ++ level_warnings c ++ directory_warnings missing c

unfoldable pub handle_config_validate :
    Text → (List (Text × ℤ) → List (Text × ℤ)) → Bool → Config → Response (List Warning)
handle_config_validate id order missing c =
    new_response id true (some (warnings order missing c)) []

-- No port stands twice: the independent description.
abbrev pub Apart : List (Text × ℤ) → Type 0
Apart [] = Unit
Apart ((service, port) ∷ ports) = All (λ e. int_eq port e.1 ≡ false) ports × Apart ports

Unseen : List (Text × ℤ) → List (ℤ × Text) → Type 0
Unseen ports seen = All (λ e. service_at e.1 seen ≡ none) ports

Unseen-split :
    (service : Text) (port : ℤ) (ports : List (Text × ℤ)) (seen : List (ℤ × Text))
    → Unseen ports ((port, service) ∷ seen)
    → All (λ e. int_eq port e.1 ≡ false) ports × Unseen ports seen
unfolding Unseen service_at
Unseen-split service port [] seen h = (tt, tt)
Unseen-split service port ((s, p) ∷ ports) seen h =
    ground (arith, Unseen-split service port ports seen)

Unseen-join :
    (service : Text) (port : ℤ) (ports : List (Text × ℤ)) (seen : List (ℤ × Text))
    → All (λ e. int_eq port e.1 ≡ false) ports
    → Unseen ports seen
    → Unseen ports ((port, service) ∷ seen)
unfolding Unseen service_at
Unseen-join service port [] seen a u = tt
Unseen-join service port ((s, p) ∷ ports) seen a u =
    ground (arith, Unseen-join service port ports seen)

Unseen-new : (ports : List (Text × ℤ)) → Unseen ports []
unfolding Unseen service_at
Unseen-new [] = tt
Unseen-new ((s, p) ∷ ports) = (refl, Unseen-new ports)

conflict-free :
    (ports : List (Text × ℤ)) (seen : List (ℤ × Text))
    → (port_conflicts ports seen ≡ []) ↔ (Unseen ports seen × Apart ports)
unfolding Unseen port_conflicts
conflict-free [] seen = (λ h. (tt, tt), λ h. refl)
conflict-free ((service, port) ∷ ports) seen = elim (Option-cases (service_at port seen)) [
  | inl e ↦
      let rest = conflict-free ports ((port, service) ∷ seen) in
      (
        λ h.
            let both = rest.0 (rw (e, port_conflicts) at h) in
            let parts = Unseen-split service port ports seen both.0 in
            ((e, parts.1), (parts.0, both.1)),
        λ h.
            rw (e, port_conflicts)
              (rest.1 (Unseen-join service port ports seen h.1.0 h.0.1, h.1.1)),
      )
  | inr (existing, e) ↦
      (λ h. absurd (let no = rw (e, port_conflicts) at h in cc), λ h. absurd (let no = h.0.0 in cc))
]

-- In whatever order the loop meets the services, it warns of no conflict exactly when no two of
-- them have the same port.
pub port_conflicts_lem : (ports : List (Text × ℤ)) → (port_conflicts ports [] ≡ []) ↔ Apart ports
port_conflicts_lem ports =
    let both = conflict-free ports [] in (λ h. (both.0 h).1, λ h. both.1 (Unseen-new ports, h))
