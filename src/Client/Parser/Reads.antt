-- ===== src/Client/Parser/Reads.antt =====
-- The reads of `read_thread` through `process_data` (USBPcapCMD/thread.c) do what one read of all
-- the bytes would do.
use usbpcap_ai.Base.{
  ℕ, ◌+◌, ◌≤◌, ◌≡◌, refl, sym, ap, ◌∙◌, false, not, ◌&&◌, some, List, [], ◌∷◌, ◌++◌, append-nil,
  append_assoc, length, length-append, arith,
}
use mathlib.Core.Path.{subst}
use usbpcap_ai.Client.Parser.{
  Options, Outside, Parser, Session, drain, is_immediate, process_all, process_data,
}
use usbpcap_ai.Client.Parser.More.{more}
use usbpcap_ai.Client.Parser.Works.{Works}
use usbpcap_ai.Client.Parser.Chunks.{FitsAll, drain-more}
use usbpcap_ai.Client.Parser.Capacity.{max_pending, ensure_pending_capacity_lem}

unfoldable pub concat : List (List ℕ) → List ℕ
concat [] = []
concat (x ∷ xs) = x ++ concat xs

module _ {o : Outside} (c : Options) (works : Works o) where
  process_data-drain :
      (n : ℕ) (p : Parser) (bytes : List ℕ) (t : Session)
      → (not c.app_filter.enabled && is_immediate c.store_mode) ≡ false
      → length p.session.pending + length bytes ≤ max_pending
      → drain o c n (more p.session bytes) ≡ some t
      → (q : Parser) × (process_data o c n p bytes ≡ some q) × (q.session ≡ t)
  unfolding process_data
  process_data-drain n p bytes t parses small e =
      let (larger, grown, enough) =
        ensure_pending_capacity_lem p.pending_capacity (length p.session.pending) (length bytes)
          o.room small works.has_room in
      (record { pending_capacity = larger; session = t }, ground (arith, parses, grown, e), refl)

  pub process_all-drain :
      (n : ℕ) (chunks : List (List ℕ)) (p : Parser) (bytes : List ℕ) (u : Session)
      → (not c.app_filter.enabled && is_immediate c.store_mode) ≡ false
      → length p.session.pending + length (bytes ++ concat chunks) ≤ max_pending
      → FitsAll o c n (more p.session (bytes ++ concat chunks))
      → drain o c n (more p.session (bytes ++ concat chunks)) ≡ some u
      → (q : Parser) × (process_all o c n p (bytes ∷ chunks) ≡ some q) × (q.session ≡ u)
  unfolding process_all concat
  process_all-drain n [] p bytes u parses small fits e =
      let (q, done, same) =
        process_data-drain n p bytes u parses (ground (arith, small, ap length (append-nil bytes)))
          (subst (λ r. drain o c n (more p.session r) ≡ some u) (append-nil bytes) e) in
      (q, ground (arith, done), same)
  process_all-drain n (next_bytes ∷ chunks) p bytes u parses small fits e =
      let rest : List ℕ = next_bytes ++ concat chunks in
      let assoc : more p.session (bytes ++ rest) ≡ more (more p.session bytes) rest =
        ap (λ r. record (p.session) { pending = r })
          (sym (append_assoc p.session.pending bytes rest)) in
      let (t, first, then, fits', less) =
        drain-more c works n (more p.session bytes) u rest (subst (FitsAll o c n) assoc fits)
          (ap (drain o c n) (sym assoc) ∙ e) in
      let (q, done, same) =
        process_data-drain n p bytes t parses (omega (arith, small, length-append bytes rest))
          first in
      let (final, all, result) =
        process_all-drain n chunks q next_bytes u parses
          (omega (
            arith,
            small,
            less,
            ap (λ r. length r.pending) same,
            length-append bytes rest,
            length-append p.session.pending bytes,
          ))
          (subst (λ r. FitsAll o c n (more r rest)) (sym same) fits')
          (ap (λ r. drain o c n (more r rest)) same ∙ then) in
      (final, ground (arith, done, all), result)
