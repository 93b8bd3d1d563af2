-- ===== src/Logger/Trace.antt =====
-- internal/logger/manager.go: the logger under any sequence of calls.
use tmidb_core.Base.{Option, Text}
use tmidb_core.Base.Dict.{lookup}
use tmidb_core.Logger.{LogLevel, LogConfig, RetentionPolicy, Manager}
use tmidb_core.Logger.Writer.{Disk}
use tmidb_core.Logger.Policies.{
  Opening, new_manager, set_log_policy, enable_stream, disable_stream, get_writer, write_log,
  get_log_policy,
}
use tmidb_core.Logger.Coherence.{
  IsCoherent, get_writer-IsCoherent, write_log-IsCoherent, set_log_policy-IsCoherent,
}

module _ (marshal : Text → LogLevel → Text → Option Text) where
  -- A step of the logger: a call of one of its methods, with any answers of the file system.
  pub data Step (m : Manager) : Manager → Type 0 where
    getting_writer :
        (component : Text) (opening : Opening) → Step m (get_writer component opening m).0
    logging :
        (component : Text) (level : LogLevel) (message : Text) (opening : Opening) (disk : Disk)
        → Step m (write_log marshal component level message opening disk m).0
    setting_policy :
        (component : Text) (policy : RetentionPolicy) → Step m (set_log_policy component policy m)
    enabling : (component : Text) → Step m (enable_stream component m)
    disabling : (component : Text) → Step m (disable_stream component m)

  pub data Reach (m : Manager) : Manager → Type 0 where
    here : Reach m m
    next : {n o : Manager} → Reach m n → Step n o → Reach m o

  Step-IsCoherent : {m n : Manager} → Step m n → IsCoherent m → IsCoherent n
  unfolding enable_stream disable_stream get_log_policy
  Step-IsCoherent {m = m} (getting_writer component opening) all =
      get_writer-IsCoherent component opening m all
  Step-IsCoherent {m = m} (logging component level message opening disk) all =
      write_log-IsCoherent marshal component level message opening disk m all
  Step-IsCoherent {m = m} (setting_policy component policy) all =
      set_log_policy-IsCoherent component policy m all
  Step-IsCoherent (enabling component) all = all
  Step-IsCoherent (disabling component) all = all

  new-IsCoherent : (config : LogConfig) → IsCoherent (new_manager config)
  unfolding new_manager lookup
  new-IsCoherent config j w h = absurd (cc)

  -- Whatever is logged, and whenever policies are set, with whatever answers of the file system:
  -- every writer of a new logger follows the policy that is asked for under its component.
  pub Reach-IsCoherent :
      (config : LogConfig) {m : Manager} → Reach (new_manager config) m → IsCoherent m
  Reach-IsCoherent config here = new-IsCoherent config
  Reach-IsCoherent config (next r s) = Step-IsCoherent s (Reach-IsCoherent config r)
