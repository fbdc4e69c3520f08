-- ===== src/JniManager/Life.antt =====
-- nativeInitBLENetwork with nativeCloseBLENetwork behind it.
use lib_arnetwork_al.Prelude.{
  List, Option, [], false, none, refl, some, true, ℕ, ◌++◌, ◌>>=◌, ◌∙◌, ◌∷◌, ◌≡◌,
}
use lib_arnetwork_al.Errors.{Error, ok}
use lib_arnetwork_al.Manager.{NetworkManager}
use lib_arnetwork_al.JniBle.{
  JniBleObject, JniEvent, Thread, called, connect_method, has_env, within,
}
use lib_arnetwork_al.JniBle.Object.{ObjectReplies}
use lib_arnetwork_al.JniBle.Ledger.{ledger, replay, replay-append}
use lib_arnetwork_al.JniBle.Life.Balance.{held, replay-called}
use lib_arnetwork_al.JniBle.Life.Steps.{balance}
use lib_arnetwork_al.JniBle.Life.Whole.{deletion, deletion-balance, fresh, new-balance, new_events}
use lib_arnetwork_al.JniManager.{
  JniManager, native_close_ble_network, native_init_ble_network, with_jni_ble,
}

-- Init, and Close on the manager that it leaves.
unfoldable pub native_ble_life :
    Thread
    → Thread
    → ObjectReplies
    → (device notification_ids : ℕ) → (reply : Error) → JniManager
    → Option (Error × Error × Option JniManager × List JniEvent)
native_ble_life t t' env device notification_ids reply m = do
  (result, m, es) ← native_init_ble_network t env device notification_ids reply (some m)
  m ← m
  (result', m, es') ← native_close_ble_network t' (some m)
  some (result, result', m, es ++ es')

-- The table behind Init, by what connect returned.
abbrev pub network_behind : Error → NetworkManager → NetworkManager
network_behind reply m = elim reply [ ok ↦ with_jni_ble m | _ ↦ m ]

-- Where both threads have an environment and New's malloc, class, Java object and global reference are
-- given, nativeInitBLENetwork returns what the Java method connect returns, with the table of the BLE
-- network just where that is OK; and, whatever it is, nativeCloseBLENetwork behind it returns OK, leaves
-- the manager without an object, and the virtual machine's book takes the events of both from empty to
-- empty.
pub native_ble_life-balances :
    (t t' : Thread) (raw : JniBleObject) (class java n device ids : ℕ) (reply : Error)
    (m : JniManager)
    → has_env t ≡ true
    → has_env t' ≡ true
    → (es : List JniEvent) × (native_ble_life t t'
          (record {
            block = some raw;
            class_found = some class;
            new_object = some java;
            global_network = some n;
          })
          device
          ids
          reply
          m
        ≡ some (
          reply,
          ok,
          some (record {
            network = network_behind reply m.network;
            ble = record (m.ble) { ble_object = none };
          }),
          es,
        ))
      × (replay es (ledger false [] [] [] 0) ≡ some (ledger false [] [] [] 0))
unfolding native_ble_life native_init_ble_network native_close_ble_network
native_ble_life-balances t t' raw class java n device ids reply m env env' =
    let born = fresh m.ble.address n in
    let connected = within t (called (connect_method device ids) n ∷ []) in
    let started = within t (new_events class java n) in
    (
      (started ++ connected) ++ within t' (deletion n born),
      simp (env, env') refl,
      replay-append (started ++ connected) (within t' (deletion n born)) (ledger false [] [] [] 0)
            (held false born)
            (replay-append started connected (ledger false [] [] [] 0) (held false born)
                (new-balance t class java n m.ble.address)
              ∙ balance t (called (connect_method device ids) n ∷ []) born born
                  (λ b. replay-called (connect_method device ids) born n none b refl refl))
          ∙ deletion-balance t' born n none none tt,
    )
