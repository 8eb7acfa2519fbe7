-- ===== src/SharedLibrary/Serializar/RoundTrip.antt =====
-- What pcb_serializer writes, deserializer_pcb reads back.
use so_distribuido.Base.{
  ℕ, suc, ◌+◌, ◌%◌, ◌^◌, ◌<◌, ◌≡◌, ◌≢◌, refl, ◌∙◌, ap, List, [], ◌∷◌, some, arith, length,
}
use so_distribuido.SharedLibrary.Stream.{
  Reader, ◌>>=◌, bind_some, put32, get8, get16, get32, get_all, All, all_next, get8-put8,
  get16-put16, get32-put32, get_all-put_all,
}
use so_distribuido.SharedLibrary.Serializar.{
  IndiceCodigo, PosicionMemoria, ArgsVars, ElementStack, Etiqueta, Pcb, take, put_indice_codigo,
  indice_codigo_serializer, put_args_vars, args_vars_serializer, element_stack_serializer,
  indice_stack_serializer, put_text, put_etiqueta, indice_etiquetas_serializer, pcb_serializer,
  get_indice_codigo, get_posicion, get_args_vars, rounds_of, get_element, text_of, skip, get_key,
  get_etiqueta, get_pcb, deserializer_pcb,
}

-- Values that their types hold.
pub record CodigoFits (i : IndiceCodigo) : Type 0 where
  pub offset : i.offset < 2 ^ 32
  pub size : i.size < 2 ^ 32

pub record ArgsVarsFits (a : ArgsVars) : Type 0 where
  pub id : a.id < 2 ^ 8
  pub pagina : a.pagina < 2 ^ 32
  pub offset : a.offset < 2 ^ 32
  pub size : a.size < 2 ^ 32

pub record ElementFits (e : ElementStack) : Type 0 where
  pub ret_pos : e.ret_pos < 2 ^ 32
  pub pagina : e.ret_var.pagina < 2 ^ 32
  pub offset : e.ret_var.offset < 2 ^ 32
  pub size : e.ret_var.size < 2 ^ 32
  pub args : All ArgsVarsFits e.args
  pub few_args : length e.args < 2 ^ 31
  pub vars : All ArgsVarsFits e.vars
  pub few_vars : length e.vars < 2 ^ 31

-- A key has no NUL, and its length with the NUL is a uint16_t.
pub record EtiquetaFits (e : Etiqueta) : Type 0 where
  pub key : All (λ c. c ≢ 0) e.key
  pub short : length e.key + 1 < 2 ^ 16
  pub value : e.value < 2 ^ 32

-- cantidad_instrucciones is the number of elements of indice_codigo.
pub record PcbFits (p : Pcb) : Type 0 where
  pub pid : p.pid < 2 ^ 16
  pub pc : p.pc < 2 ^ 16
  pub cantidad_paginas : p.cantidad_paginas < 2 ^ 16
  pub exit_code : p.exit_code < 2 ^ 16
  pub sp : p.sp < 2 ^ 16
  pub instrucciones : p.cantidad_instrucciones ≡ length p.indice_codigo
  pub few_instrucciones : p.cantidad_instrucciones < 2 ^ 16
  pub stack : All ElementFits p.indice_stack
  pub few_elements : length p.indice_stack < 2 ^ 31
  pub codigo : All CodigoFits p.indice_codigo
  pub etiquetas : All EtiquetaFits p.indice_etiquetas
  pub few_etiquetas : length p.indice_etiquetas < 2 ^ 16

take_all : {A : Type 0} (xs : List A) → take (length xs) xs ≡ xs
unfolding take
take_all [] = refl
take_all (x ∷ xs) = ap (λ ys. x ∷ ys) (take_all xs)

rounds_small : (n : ℕ) → n < 2 ^ 31 → rounds_of n ≡ n
unfolding rounds_of
rounds_small n h = ground arith

codigo_back :
    (i : IndiceCodigo) (rest : List ℕ)
    → CodigoFits i
    → get_indice_codigo (put_indice_codigo i rest) ≡ some (i, rest)
unfolding get_indice_codigo put_indice_codigo
codigo_back i rest f =
    bind_some get32 _ _ i.offset _ (get32-put32 i.offset _ f.offset)
    ∙ bind_some get32 _ _ i.size _ (get32-put32 i.size _ f.size)

args_vars_back :
    (a : ArgsVars) (rest : List ℕ)
    → ArgsVarsFits a
    → get_args_vars (put_args_vars a rest) ≡ some (a, rest)
unfolding get_args_vars put_args_vars
args_vars_back a rest f =
    bind_some get8 _ _ a.id _ (get8-put8 a.id _ f.id)
    ∙ bind_some get32 _ _ a.pagina _ (get32-put32 a.pagina _ f.pagina)
    ∙ bind_some get32 _ _ a.offset _ (get32-put32 a.offset _ f.offset)
    ∙ bind_some get32 _ _ a.size _ (get32-put32 a.size _ f.size)

args_vars_list_back :
    {B : Type 0} (f : List ArgsVars → Reader B) (xs : List ArgsVars) (rest : List ℕ)
    → All ArgsVarsFits xs
    → length xs < 2 ^ 31
    → (get32 >>= λ n. get_all get_args_vars (rounds_of n) >>= f) (args_vars_serializer xs rest)
      ≡ f xs rest
unfolding args_vars_serializer
args_vars_list_back f xs rest fits few =
    bind_some get32 _ _ (length xs) _ (get32-put32 (length xs) _ (omega arith))
    ∙ rw (rounds_small (length xs) few) (
        bind_some (get_all get_args_vars (length xs)) f _ xs rest
          (get_all-put_all ArgsVarsFits get_args_vars put_args_vars args_vars_back xs rest fits))

posicion_back :
    (p : PosicionMemoria) (rest : List ℕ)
    → p.pagina < 2 ^ 32
    → p.offset < 2 ^ 32
    → p.size < 2 ^ 32
    → get_posicion (put32 p.pagina (put32 p.offset (put32 p.size rest))) ≡ some (p, rest)
unfolding get_posicion
posicion_back p rest a b c =
    bind_some get32 _ _ p.pagina _ (get32-put32 p.pagina _ a)
    ∙ bind_some get32 _ _ p.offset _ (get32-put32 p.offset _ b)
    ∙ bind_some get32 _ _ p.size _ (get32-put32 p.size _ c)

element_back :
    (e : ElementStack) (rest : List ℕ)
    → ElementFits e
    → get_element (element_stack_serializer e rest) ≡ some (e, rest)
unfolding get_element element_stack_serializer
element_back e rest f =
    bind_some get32 _ _ e.ret_pos _ (get32-put32 e.ret_pos _ f.ret_pos)
    ∙ bind_some get_posicion _ _ e.ret_var _ (posicion_back e.ret_var _ f.pagina f.offset f.size)
    ∙ args_vars_list_back _ e.args _ f.args f.few_args
    ∙ args_vars_list_back _ e.vars rest f.vars f.few_vars

pub text_back : (key rest : List ℕ) → All (λ c. c ≢ 0) key → text_of (put_text key rest) ≡ some key
unfolding text_of put_text
text_back [] rest f = refl
text_back (x ∷ xs) rest (all_next _ _ p ps) = rw (text_back xs rest ps) (ground arith)

skip_text : (key rest : List ℕ) → skip (suc (length key)) (put_text key rest) ≡ rest
unfolding skip put_text
skip_text [] rest = refl
skip_text (x ∷ xs) rest = skip_text xs rest

get_key-some :
    (n : ℕ) (key bytes : List ℕ)
    → text_of bytes ≡ some key
    → get_key n bytes ≡ some (key, skip n bytes)
unfolding get_key
get_key-some n key bytes e = rw (e, get_key)

key_back :
    (key rest : List ℕ)
    → All (λ c. c ≢ 0) key
    → get_key (length key + 1) (put_text key rest) ≡ some (key, rest)
key_back key rest f =
    let e : length key + 1 ≡ suc (length key) = omega arith in
    rw e (
      get_key-some (suc (length key)) key (put_text key rest) (text_back key rest f)
      ∙ ap (λ after. some (key, after)) (skip_text key rest))

etiqueta_back :
    (e : Etiqueta) (rest : List ℕ)
    → EtiquetaFits e
    → get_etiqueta (put_etiqueta e rest) ≡ some (e, rest)
unfolding get_etiqueta put_etiqueta
etiqueta_back e rest f =
    bind_some get16 _ _ (length e.key + 1) _ (get16-put16 (length e.key + 1) _ f.short)
    ∙ bind_some (get_key (length e.key + 1)) _ _ e.key _ (key_back e.key _ f.key)
    ∙ bind_some get32 _ _ e.value _ (get32-put32 e.value _ f.value)

codigo_list_back :
    {B : Type 0} (f : ℕ → List IndiceCodigo → Reader B) (p : Pcb) (rest : List ℕ)
    → p.cantidad_instrucciones ≡ length p.indice_codigo
    → p.cantidad_instrucciones < 2 ^ 16
    → All CodigoFits p.indice_codigo
    → (get16 >>= λ n. get_all get_indice_codigo n >>= f n) (indice_codigo_serializer p rest)
      ≡ f p.cantidad_instrucciones p.indice_codigo rest
unfolding indice_codigo_serializer
codigo_list_back f p rest counted few fits =
    let n = p.cantidad_instrucciones in
    let same : n % 2 ^ 16 ≡ length p.indice_codigo = omega (arith, counted, few) in
    rw (same, counted, take_all p.indice_codigo)
      (bind_some get16 _ _ (length p.indice_codigo) _
          (get16-put16 (length p.indice_codigo) _ (rw counted at few))
        ∙ bind_some (get_all get_indice_codigo (length p.indice_codigo)) _ _ p.indice_codigo rest (
            get_all-put_all CodigoFits get_indice_codigo put_indice_codigo codigo_back
              p.indice_codigo rest fits))

stack_list_back :
    {B : Type 0} (f : List ElementStack → Reader B) (xs : List ElementStack) (rest : List ℕ)
    → All ElementFits xs
    → length xs < 2 ^ 31
    → (get32 >>= λ n. get_all get_element (rounds_of n) >>= f) (indice_stack_serializer xs rest)
      ≡ f xs rest
unfolding indice_stack_serializer
stack_list_back f xs rest fits few =
    bind_some get32 _ _ (length xs) _ (get32-put32 (length xs) _ (omega arith))
    ∙ rw (rounds_small (length xs) few) (
        bind_some (get_all get_element (length xs)) f _ xs rest (
          get_all-put_all ElementFits get_element element_stack_serializer element_back xs rest
            fits))

etiquetas_list_back :
    {B : Type 0} (f : List Etiqueta → Reader B) (xs : List Etiqueta) (rest : List ℕ)
    → All EtiquetaFits xs
    → length xs < 2 ^ 16
    → (get16 >>= λ n. get_all get_etiqueta n >>= f) (indice_etiquetas_serializer xs rest)
      ≡ f xs rest
unfolding indice_etiquetas_serializer
etiquetas_list_back f xs rest fits few =
    bind_some get16 _ _ (length xs) _ (get16-put16 (length xs) _ few)
    ∙ bind_some (get_all get_etiqueta (length xs)) f _ xs rest
        (get_all-put_all EtiquetaFits get_etiqueta put_etiqueta etiqueta_back xs rest fits)

-- The whole PCB, in front of any other bytes.
pcb_back : (p : Pcb) (rest : List ℕ) → PcbFits p → get_pcb (pcb_serializer p rest) ≡ some (p, rest)
unfolding get_pcb pcb_serializer
pcb_back p rest f =
    bind_some get16 _ _ p.pid _ (get16-put16 p.pid _ f.pid)
    ∙ bind_some get16 _ _ p.pc _ (get16-put16 p.pc _ f.pc)
    ∙ bind_some get16 _ _ p.cantidad_paginas _ (get16-put16 p.cantidad_paginas _ f.cantidad_paginas)
    ∙ bind_some get16 _ _ p.sp _ (get16-put16 p.sp _ f.sp)
    ∙ bind_some get16 _ _ p.exit_code _ (get16-put16 p.exit_code _ f.exit_code)
    ∙ codigo_list_back _ p _ f.instrucciones f.few_instrucciones f.codigo
    ∙ stack_list_back _ p.indice_stack _ f.stack f.few_elements
    ∙ etiquetas_list_back _ p.indice_etiquetas rest f.etiquetas f.few_etiquetas

-- A PCB whose fields fit their types, whose keys have no NUL, and whose
-- cantidad_instrucciones is the number of its instructions, is read back by deserializer_pcb
-- from the bytes that pcb_serializer wrote, whatever bytes follow.
pub deserializer_pcb-pcb_serializer :
    (p : Pcb) (rest : List ℕ) → PcbFits p → deserializer_pcb (pcb_serializer p rest) ≡ some p
unfolding deserializer_pcb
deserializer_pcb-pcb_serializer p rest f = rw (pcb_back p rest f, deserializer_pcb)
