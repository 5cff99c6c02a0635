-- ===== src/Settings/Provider.antt =====
-- `SettingsProvider`: the settings in memory and the stored blob. `stored` is `none` where nothing is
-- stored, and holds `none` for a value that is no object.
use deedlit_dev.Base.{◌≡◌, refl, Bool, true, false, ◌&&◌, Option, none, some, if◌then◌else◌}
use deedlit_dev.Settings.{Numbers, Blob, LibrarySettings, default_settings, merge_settings, blob_of}
use deedlit_dev.Settings.Fields.{IsOrdered, IsValid}
use deedlit_dev.Settings.Merge.{merge_settings-IsValid, merge_settings-blob_of}

pub record Provider (N : Type 0) : Type 0 where
  pub settings : LibrarySettings N
  pub hydrated : Bool
  pub stored : Option (Option (Blob N))

module _ {N : Type 0} (n : Numbers N) where
  abbrev pub rendered : Option (Option (Blob N)) → Provider N
  rendered stored = record { settings = default_settings n; hydrated = false; stored = stored }

  unfoldable pub stored_or : LibrarySettings N → Option (Option (Blob N)) → LibrarySettings N
  stored_or settings none = settings
  stored_or settings (some raw) = merge_settings n raw

  -- The first effect; `readable` is whether reading and parsing work.
  unfoldable pub hydrate : Bool → Provider N → Provider N
  unfolding stored_or
  hydrate readable p = record p {
    settings = if readable then stored_or p.settings p.stored else p.settings;
    hydrated = true;
  }

  -- The second effect; `writable` is whether the storage takes the blob.
  unfoldable pub persist : Bool → Provider N → Provider N
  persist writable p =
      if p.hydrated && writable then record p { stored = some (some (blob_of p.settings)) } else p

  -- What `setKey` and `update` do, with the effect behind it.
  unfoldable pub update : Bool → (LibrarySettings N → LibrarySettings N) → Provider N → Provider N
  update writable change p = persist writable (record p { settings = change p.settings })

  unfoldable pub reset : Bool → Provider N → Provider N
  reset writable p = update writable (λ s. default_settings n) p

  -- The first render runs both effects in turn, the second before it is hydrated; the next render
  -- runs the second again.
  unfoldable pub mount : Bool → Bool → Option (Option (Blob N)) → Provider N
  mount readable writable stored =
      persist writable (hydrate readable (persist writable (rendered stored)))

  stored_or-IsValid :
      IsOrdered n
      → (stored : Option (Option (Blob N))) → IsValid n (stored_or (default_settings n) stored)
  unfolding stored_or
  stored_or-IsValid ord none = unfold merge_settings in merge_settings-IsValid n ord none
  stored_or-IsValid ord (some raw) = merge_settings-IsValid n ord raw

  reload_written :
      IsOrdered n
      → (s : LibrarySettings N) (p : Provider N) → p.hydrated ≡ true
      → IsValid n s
      → stored_or (default_settings n) (persist true (record p { settings = s })).stored ≡ s
  unfolding persist stored_or
  reload_written ord s p h v = rw h (merge_settings-blob_of n ord s v)

  -- Whatever is stored, mounting gives valid settings and never replaces stored ones by the defaults:
  -- what is stored afterwards is what was merged. Settings that are valid after an update that could
  -- be written are what the next mount gives.
  pub mount-update :
      IsOrdered n
      → (stored : Option (Option (Blob N))) (change : LibrarySettings N → LibrarySettings N)
        (p : Provider N)
      → p.hydrated ≡ true
      → IsValid n (change p.settings)
      → IsValid n (mount true true stored).settings
        × ((mount true true stored).settings ≡ stored_or (default_settings n) stored)
        × ((mount true true (update true change p).stored).settings ≡ change p.settings)
  unfolding mount persist hydrate update
  mount-update ord stored change p h v =
      (stored_or-IsValid ord stored, refl, reload_written ord (change p.settings) p h v)
