-- ===== src/Desktop/Tempaudio/Sweeps.antt =====
-- What a sweep spares, and what its report counts.
use open_transcribe_mcp.Base.{
  ◌+◌, ◌<◌, ◌≡◌, refl, true, false, some, List, [], ◌∷◌, length, arith, Bool-cases, inl, inr,
  eq_iff,
}
use open_transcribe_mcp.Base.Float.{Float}
use open_transcribe_mcp.Desktop.Tempaudio.{
  Area, Entry, OwnerClaim, claimed, regular, Unlink, both, audio_only, neither, SweepReport, sweep,
  remove_entry, is_reclaimable, is_boot, is_expired, owner_alive,
}

-- The owner of the file lives, in this boot, and has not let the file expire.
pub record IsHeld (area : Area) (e : Entry) : Type 0 where
  pub mtime : Float
  pub kept : e.stat ≡ regular mtime
  pub claim : OwnerClaim
  pub meta : e.meta ≡ claimed claim
  pub boot : claim.boot_id ≡ some area.boot
  pub expiry : Float
  pub expires : claim.expires_at ≡ some expiry
  pub unexpired : area.now < expiry
  pub alive : owner_alive area claim.pid claim.pid_start_ticks ≡ true

held-spared : (area : Area) (e : Entry) → IsHeld area e → is_reclaimable area e.stat e.meta ≡ false
unfolding is_reclaimable is_boot is_expired
held-spared area e h =
    rw (h.kept, h.meta, h.boot, h.expires, h.alive)
      (ground (arith, h.unexpired, eq_iff area.boot area.boot))

-- A file is among those that are left.
pub data IsLeft (e : Entry) : List Entry → Type 0 where
  first : (es : List Entry) → IsLeft e (e ∷ es)
  later : (d : Entry) (es : List Entry) → IsLeft e es → IsLeft e (d ∷ es)

-- Held files are left, and every file that was seen is counted once.
pub record IsSwept (area : Area) (es : List Entry) (r : List Entry × SweepReport) : Type 0 where
  pub spared : (e : Entry) → IsLeft e es → IsHeld area e → IsLeft e r.0
  pub counted : r.1.removed + r.1.retained + length r.1.failed ≡ length es

spared_behind :
    (area : Area) (d e : Entry) (es left : List Entry)
    → is_reclaimable area d.stat d.meta ≡ true
    → ((x : Entry) → IsLeft x es → IsHeld area x → IsLeft x left)
    → IsLeft e (d ∷ es)
    → IsHeld area e
    → IsLeft e left
spared_behind area d e es left gone h (first es') held =
    let spared = held-spared area d held in absurd (ground arith)
spared_behind area d e es left gone h (later d' es' l) held = h e l held

remove_entry-IsSwept :
    (area : Area) (u : Unlink) (d : Entry) (es : List Entry) (r : List Entry × SweepReport)
    → is_reclaimable area d.stat d.meta ≡ true
    → IsSwept area es r
    → IsSwept area (d ∷ es) (remove_entry u d r)
unfolding remove_entry
remove_entry-IsSwept area both d es (left, report) gone h = record {
  spared = λ e l held. spared_behind area d e es left gone h.spared l held;
  counted = omega (arith, h.counted);
}
remove_entry-IsSwept area audio_only d es (left, report) gone h = record {
  spared = λ e l held. spared_behind area d e es left gone h.spared l held;
  counted = omega (arith, h.counted);
}
remove_entry-IsSwept area neither d es (left, report) gone h = record {
  spared = λ e l held. later d left (spared_behind area d e es left gone h.spared l held);
  counted = omega (arith, h.counted);
}

spared_before :
    (area : Area) (d e : Entry) (es left : List Entry)
    → ((x : Entry) → IsLeft x es → IsHeld area x → IsLeft x left)
    → IsLeft e (d ∷ es)
    → IsHeld area e
    → IsLeft e (d ∷ left)
spared_before area d e es left h (first es') held = first left
spared_before area d e es left h (later d' es' l) held = later d left (h e l held)

-- A sweep that does not expire everything leaves every file whose owner lives in this boot and has
-- not let it expire, whatever else it removes and whatever removals fail; and its report counts
-- each audio file once, as removed, retained or failed.
pub sweep-IsSwept : (area : Area) (es : List Entry) → IsSwept area es (sweep area false es)
unfolding sweep
sweep-IsSwept area [] = record { spared = λ e l held. l; counted = refl }
sweep-IsSwept area (d ∷ es) = elim (Bool-cases (is_reclaimable area d.stat d.meta)) [
  | inl gone ↦
      rw gone
        (remove_entry-IsSwept area d.unlink d es (sweep area false es) gone (sweep-IsSwept area es))
  | inr kept ↦
      let rest = sweep-IsSwept area es in
      rw kept (record {
        spared = λ e l held. spared_before area d e es (sweep area false es).0 rest.spared l held;
        counted = omega (arith, rest.counted);
      })
]
