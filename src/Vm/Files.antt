-- ===== src/Vm/Files.antt =====
-- The program's own input and output in runtime/vm.py: `_file_op`, `_bytes_from_io`, and the calls of
-- `self.io`.
use quin_lang.Prelude.{List, Option, Result, [], err, none, ok, some, ℕ, ◌∷◌}
use quin_lang.Program.{Text}
use quin_lang.Vm.Machine.{
  Exec, Setup, Vm, forbid, modify, not_bytes, pure, raise, wide_character, ◌>>◌,
}
use quin_lang.Vm.Io.{IoValue, OsError, bytes, other, text}
use quin_lang.Vm.Alloc.{wide_char}

-- str(e) or e.__class__.__name__
unfoldable pub reason : OsError → Text
reason e = elim e.message [ [] ↦ e.class_name | c ∷ cs ↦ c ∷ cs ]

module _ {W : Type 0} where
  -- what the call returned, with its reason kept on failure
  unfoldable pub file_result : {A : Type 0} → Result OsError A → Vm W → Option A × Vm W
  file_result (ok a) vm = (some a, record vm { file_error = [] })
  file_result (err e) vm = (none, record vm { file_error = reason e })

  -- `_file_op`: a success clears the reason, since it is cleared before the attempt
  unfoldable pub file_op : {A : Type 0} → (W → Result OsError A × W) → Exec W (Option A)
  file_op action vm =
      let (r, w) = action vm.world in
      let (a, vm') = file_result r (record vm { world = w }) in (ok a, vm')

  -- `_bytes_from_io`
  unfoldable pub bytes_from_io : IoValue → Exec W (List ℕ)
  bytes_from_io (bytes b) = pure b
  bytes_from_io (text s) = do forbid (wide_char s) wide_character; pure s
  bytes_from_io other = raise not_bytes

  -- data if the read worked, and b"" if it did not
  unfoldable pub content_or_empty : Option IoValue → Exec W (List ℕ)
  content_or_empty none = pure []
  content_or_empty (some v) = bytes_from_io v

module _ {F W : Type 0} (setup : Setup F W) where
  -- self.io.write(text)
  unfoldable pub write_out : Text → Exec W (Unit {0})
  write_out s = modify (λ vm. record vm { world = setup.io.write s vm.world })

  -- self.io.read_line()
  unfoldable pub read_input : Exec W Text
  read_input vm = let (s, w) = setup.io.read_line vm.world in (ok s, record vm { world = w })
