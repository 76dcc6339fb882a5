-- ===== src/Voice/Latency/Laws.antt =====
-- The pending table is bounded, and a latency is measured for one utterance.
use hire_os_be.Prelude.{
  ◌+◌, ◌-◌, [], arith, Bool-cases, eq_refl, if◌then◌else◌, inl, inr, leb, length, List, none,
  Option, refl, some, String, suc, ℕ, ◌∙◌, ◌∷◌, ◌≡◌, ◌≤◌,
}
use hire_os_be.Prelude.Dict
use hire_os_be.Prelude.Dict.{Dict, get-put, get-remove}
use hire_os_be.Voice.Latency.{
  captured, eou, evict, Metrics, on_all_metrics, on_eou, on_metrics_collected, on_tts, other, tts,
}

length-put-le : (k : String) (v : ℕ) (d : Dict ℕ) → length (Dict.put k v d) ≤ suc (length d)
unfolding Dict.put
length-put-le k v [] = omega arith
length-put-le k v ((j, w) ∷ d) = ground (arith, length-put-le k v d)

length-remove-le : (k : String) (d : Dict ℕ) → length (Dict.remove k d) ≤ length d
unfolding Dict.remove
length-remove-le k [] = omega arith
length-remove-le k ((j, w) ∷ d) = ground (arith, length-remove-le k d)

length-evict : (d : Dict ℕ) → length (evict d) ≡ length d - 1
length-evict [] = omega arith
length-evict (e ∷ d) = omega arith

on_eou-bound :
    (id : Option String) (t : ℕ) (d : Dict ℕ) → length d ≤ 20 → length (on_eou id t d) ≤ 20
unfolding on_eou
on_eou-bound none t d h = h
on_eou-bound (some id) t d h = elim (Bool-cases (leb 20 (length d))) [
  | inl full ↦ rw full (omega (arith, length-put-le id t (evict d), length-evict d))
  | inr room ↦ rw room (ground (arith, length-put-le id t d))
]

on_metrics_collected-bound :
    (session : String) (m : Metrics) (d : Dict ℕ)
    → length d ≤ 20
    → length (on_metrics_collected session m d).0 ≤ 20
unfolding on_metrics_collected on_tts
on_metrics_collected-bound session (eou id t) d h = on_eou-bound id t d h
on_metrics_collected-bound session (tts none t f) d h = h
on_metrics_collected-bound session (tts (some id) t f) d h = omega (arith, length-remove-le id d)
on_metrics_collected-bound session (captured type) d h = h
on_metrics_collected-bound session (other type) d h = h

-- However many metrics a call emits, at most twenty utterances are pending.
pub on_all_metrics-bound :
    (session : String) (metrics : List Metrics) (d : Dict ℕ)
    → length d ≤ 20
    → length (on_all_metrics session metrics d).0 ≤ 20
unfolding on_all_metrics
on_all_metrics-bound session [] d h = h
on_all_metrics-bound session (m ∷ more) d h =
    on_all_metrics-bound session more (on_metrics_collected session m d).0
      (on_metrics_collected-bound session m d h)

-- The utterance whose end was reported last is measured when its reply plays, from that end, once:
-- a second reply for it measures nothing.
pub on_tts-on_eou :
    (id : String) (t t1 f1 t2 f2 : ℕ) (d : Dict ℕ)
    → let first = on_tts (some id) t1 f1 (on_eou (some id) t d) in
      (first.1 ≡ some (record { speech_id = id; audio_ts = t1 + f1; eou_ts = t }))
      × ((on_tts (some id) t2 f2 first.0).1 ≡ none)
unfolding on_tts on_eou
on_tts-on_eou id t t1 f1 t2 f2 d =
    let e = if leb 20 (length d) then evict d else d in
    let put : Dict.get id (Dict.put id t e) ≡ some t = get-put id id t e ∙ rw (eq_refl id) refl in
    let gone : Dict.get id (Dict.remove id (Dict.put id t e)) ≡ none =
      get-remove id id (Dict.put id t e) ∙ rw (eq_refl id) refl in
    (rw (on_tts, on_eou, put) refl, rw (on_tts, on_eou, gone) refl)
