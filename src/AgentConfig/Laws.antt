-- ===== src/AgentConfig/Laws.antt =====
-- How the update of an agent's configuration file ends.
use lima_jailed_agents.Base.{
  String, ℕ, true, List, FilePath, ◌≡◌, ◌≢◌, refl, ap, ◌∙◌, Bool-cases, arith, inl, inr,
}
use lima_jailed_agents.Base.{Result, ok, err, Error, ◌==◌, string_eq}
use lima_jailed_agents.Agent.State.Events.{ensure_agent_state_directories-Emits}
use lima_jailed_agents.AgentConfig.{
  ConfigFile, config_directory, config_path, check_link, original_of, write_updated, update_config,
}
use lima_jailed_agents.Agent.State.{ensure_agent_state_directories}
use lima_jailed_agents.Files.Laws.{
  LeavesAlone, Keeps, kept, Replaced, Keeps-Adds, Keeps-trans, replace_file-Replaced,
}
use lima_jailed_agents.Path.Text.{path_text}
use lima_jailed_agents.Run.{Worlds, Trace, made_dir, ◌>>=◌, ask, lift, bind_result, query}

made_dir-LeavesAlone : (target path : FilePath) → LeavesAlone target (made_dir path)
unfolding LeavesAlone
made_dir-LeavesAlone target path = tt

equal : (s t : String) → (s == t) ≡ true → s ≡ t
equal s t e = ground arith

module _ (w : Worlds) (f : ConfigFile) (state : FilePath) where
  -- How an update ends that starts after the trace `t`: with an error and the file as it was; with the file as
  -- it was, since the update makes of its content just that; or with what comes of the replacement, as a
  -- whole, by what the update makes of the content that was read.
  pub data Updated (t : Trace) : Result (Unit {0}) × Trace → Type 0 where
    unchanged : (e : Error) (u : Trace) → Keeps w (config_path f state) t u → Updated t (err e, u)
    current :
        (u : Trace) (mode : ℕ) (original : String)
        → Keeps w (config_path f state) t u
        → original_of w f (w u) (config_path f state) ((w u).host.stat (config_path f state))
          ≡ ok (mode, original)
        → f.configure (w u).host original ≡ ok original
        → Updated t (ok tt, u)
    changed :
        (u : Trace) (mode : ℕ) (original updated : String) (x : Result (Unit {0}) × Trace)
        → Keeps w (config_path f state) t u
        → original_of w f (w u) (config_path f state) ((w u).host.stat (config_path f state))
          ≡ ok (mode, original)
        → f.configure (w u).host original ≡ ok updated
        → Replaced w (config_path f state) mode updated u x
        → Updated t x

  abbrev path : FilePath
  path = config_path f state

  -- `os.CreateTemp` makes another file than the configuration.
  abbrev pub MakesOther : Type 0
  MakesOther = (t : Trace) → (w t).temp_file (config_directory f state) f.temporary_prefix ≢ path

  write-Updated :
      (other : MakesOther) (t : Trace) (mode : ℕ) (original updated : String)
      → original_of w f (w t) path ((w t).host.stat path) ≡ ok (mode, original)
      → f.configure (w t).host original ≡ ok updated
      → Updated t (write_updated w f state mode original updated t)
  unfolding write_updated
  write-Updated other t mode original updated read made = elim (Bool-cases (updated == original)) [
    | inl eq ↦ rw eq (current t mode original kept read (made ∙ ap ok (equal updated original eq)))
    | inr ne ↦ rw ne (
        changed t mode original updated _ kept read made (
          replace_file-Replaced w path f.both (config_directory f state) f.temporary_prefix mode
            updated t (other t)))
  ]

  configure-Updated :
      (other : MakesOther) (t : Trace) (mode : ℕ) (original : String) (r : Result String)
      → original_of w f (w t) path ((w t).host.stat path) ≡ ok (mode, original)
      → f.configure (w t).host original ≡ r
      → Updated t (bind_result (λ updated. write_updated w f state mode original updated) r t)
  configure-Updated other t mode original (ok updated) read made =
      write-Updated other t mode original updated read made
  configure-Updated other t mode original (err e) read made = unchanged _ t kept

  read-Updated :
      (other : MakesOther) (t : Trace) (r : Result (ℕ × String))
      → original_of w f (w t) path ((w t).host.stat path) ≡ r
      → Updated t (
          bind_result
            (λ (mode, original). query w (λ h. f.configure h original) >>= λ updated.
              write_updated w f state mode original updated)
            r
            t)
  read-Updated other t (ok (mode, original)) read =
      configure-Updated other t mode original _ read refl
  read-Updated other t (err e) read = unchanged _ t kept

  link-Updated :
      (other : MakesOther) (t : Trace) (r : Result (Unit {0}))
      → Updated t (
          bind_result
            (λ _. ask w (λ x. original_of w f x path (x.host.stat path)) >>= λ read.
              lift read >>= λ (mode, original). query w (λ h. f.configure h original) >>= λ updated.
              write_updated w f state mode original updated)
            r
            t)
  link-Updated other t (ok u) = read-Updated other t _ refl
  link-Updated other t (err e) = unchanged _ t kept

  Updated-later :
      {t u : Trace} {x : Result (Unit {0}) × Trace} → Keeps w path t u → Updated u x → Updated t x
  Updated-later k (unchanged e v j) = unchanged e v (Keeps-trans w path k j)
  Updated-later k (current v mode original j read made) =
      current v mode original (Keeps-trans w path k j) read made
  Updated-later k (changed v mode original updated x j read made done) =
      changed v mode original updated x (Keeps-trans w path k j) read made done

  directories-Updated :
      (other : MakesOther) {t : Trace} (u : Trace) (r : Result (List FilePath))
      → Keeps w path t u
      → Updated t (
          bind_result
            (λ _. query w (λ h. check_link w f (h.lstat path)) >>= λ _.
              ask w (λ x. original_of w f x path (x.host.stat path)) >>= λ read.
              lift read >>= λ (mode, original). query w (λ h. f.configure h original) >>= λ updated.
              write_updated w f state mode original updated)
            r
            u)
  directories-Updated other u (ok paths) k = Updated-later k (link-Updated other u _)
  directories-Updated other u (err e) k = unchanged _ u k

  -- Whatever the file system answers: if the update of an agent's configuration fails, the file is as it was; if it
  -- succeeds, the file is as it was and the update makes of its content just that, or a temporary file took its
  -- place by a rename, after it was made, got the mode of the file and what the update makes of its content, and
  -- was synced and closed, every call of these without an error. `os.CreateTemp` must make another file than
  -- the configuration.
  pub update_config-Updated : MakesOther → (t : Trace) → Updated t (update_config w f state t)
  unfolding update_config
  update_config-Updated other t =
      let ensure = ensure_agent_state_directories w (path_text state) f.agent in
      directories-Updated other (ensure t).1 (ensure t).0 (
        Keeps-Adds w path kept (
          (ensure_agent_state_directories-Emits w (LeavesAlone path) (made_dir-LeavesAlone path)
              (path_text state) f.agent).at
            t))
