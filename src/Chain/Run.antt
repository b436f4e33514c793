-- ===== src/Chain/Run.antt =====
-- The runs of watcher and consumer beside the rest of the program, in every order of their steps.
use dogecade.Common.{List, [], ℕ, ◌≡◌}
use dogecade.Store.{Db, World}
use dogecade.Settings.{key_chain_cursor, text_of}
use dogecade.Deposits.{CreditHook}
use dogecade.Chain.{Backend, Float64, Pipeline, idle, stopped, take_event, take_removed, watch}

-- The text of the cursor in the tables.
abbrev pub cursor_in : Db → List ℕ
cursor_in d = text_of key_chain_cursor d.settings

-- What the rest of the program does meanwhile: anything but to deposits and to the cursor.
abbrev pub IsElsewhere : Db → Db → Type 0
IsElsewhere d d' = (d'.deposits ≡ d.deposits) × (cursor_in d' ≡ cursor_in d)

module _ (go : Float64) (credit : CreditHook) where
  pub data Step : Pipeline go.Carrier → Pipeline go.Carrier → Type 0 where
    watches : (backend : Backend go.Carrier) (s : Pipeline go.Carrier) → Step s (watch go backend s)
    handles :
        (now clock : ℕ) (s : Pipeline go.Carrier)
        → Step s (take_event credit now clock s.notify_ch s)
    undoes : (now : ℕ) (s : Pipeline go.Carrier) → Step s (take_removed now s.removed_ch s)
    cancels : (s : Pipeline go.Carrier) → Step s (record s { watcher = stopped s.watcher })
    elsewhere :
        (w : World) (s : Pipeline go.Carrier)
        → IsElsewhere s.world.db w.db
        → Step s (record s { world = w })

  pub data Run (s : Pipeline go.Carrier) : Pipeline go.Carrier → Type 0 where
    here : Run s s
    more : {t u : Pipeline go.Carrier} → Run s t → Step t u → Run s u

-- The program starts with the watcher idle and empty channels.
abbrev pub start : {F : Type 0} → World → Pipeline F
start w = record {
  world = w;
  watcher = idle;
  notify_ch = [];
  removed_ch = [];
  polls = [];
  handled = [];
  undone = [];
}
