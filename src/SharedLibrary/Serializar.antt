-- ===== src/SharedLibrary/Serializar.antt =====
-- serializar.c: a PCB as a stream of bytes, and back. The fields are the bit patterns of their
-- integers, a t_list is its elements, and indice_etiquetas is the sequence of pairs that
-- dictionary_iterator visits, and that dictionary_put is called with.
pub mod RoundTrip
use so_distribuido.Base.{
  ℕ, zero, suc, ◌+◌, ◌*◌, ◌%◌, ◌^◌, List, [], ◌∷◌, Option, none, some, ◌==◌, leb, if◌then◌else◌,
  length,
}
use so_distribuido.SharedLibrary.Stream.{
  Reader, return, ◌>>=◌, put8, put16, put32, get8, get16, get32, put_all, get_all,
}

-- t_indice_codigo
pub record IndiceCodigo : Type 0 where
  pub offset : ℕ
  pub size : ℕ

-- posicion_memoria
pub record PosicionMemoria : Type 0 where
  pub pagina : ℕ
  pub offset : ℕ
  pub size : ℕ

-- t_args_vars
pub record ArgsVars : Type 0 where
  pub id : ℕ
  pub pagina : ℕ
  pub offset : ℕ
  pub size : ℕ

-- t_element_stack
pub record ElementStack : Type 0 where
  pub ret_pos : ℕ
  pub ret_var : PosicionMemoria
  pub args : List ArgsVars
  pub vars : List ArgsVars

-- An entry of the dictionary; the key is a text without its NUL.
pub record Etiqueta : Type 0 where
  pub key : List ℕ
  pub value : ℕ

-- t_PCB
pub record Pcb : Type 0 where
  pub pid : ℕ
  pub pc : ℕ
  pub cantidad_paginas : ℕ
  pub exit_code : ℕ
  pub sp : ℕ
  pub cantidad_instrucciones : ℕ
  pub indice_stack : List ElementStack
  pub indice_codigo : List IndiceCodigo
  pub indice_etiquetas : List Etiqueta

-- The first elements of an array.
unfoldable pub take : {A : Type 0} → ℕ → List A → List A
take zero xs = []
take (suc n) [] = []
take (suc n) (x ∷ xs) = x ∷ take n xs

unfoldable pub put_indice_codigo : IndiceCodigo → List ℕ → List ℕ
put_indice_codigo i rest = put32 i.offset (put32 i.size rest)

unfoldable pub indice_codigo_serializer : Pcb → List ℕ → List ℕ
indice_codigo_serializer pcb rest =
    let cant_elementos = pcb.cantidad_instrucciones % 2 ^ 16 in
    put16 cant_elementos (put_all put_indice_codigo (take cant_elementos pcb.indice_codigo) rest)

unfoldable pub put_args_vars : ArgsVars → List ℕ → List ℕ
put_args_vars a rest = put8 a.id (put32 a.pagina (put32 a.offset (put32 a.size rest)))

unfoldable pub args_vars_serializer : List ArgsVars → List ℕ → List ℕ
args_vars_serializer xs rest = put32 (length xs) (put_all put_args_vars xs rest)

unfoldable pub element_stack_serializer : ElementStack → List ℕ → List ℕ
element_stack_serializer e rest = put32 e.ret_pos (
    put32 e.ret_var.pagina (
      put32 e.ret_var.offset
        (put32 e.ret_var.size (args_vars_serializer e.args (args_vars_serializer e.vars rest)))))

unfoldable pub indice_stack_serializer : List ElementStack → List ℕ → List ℕ
indice_stack_serializer xs rest = put32 (length xs) (put_all element_stack_serializer xs rest)

-- The bytes of a text, with its NUL.
unfoldable pub put_text : List ℕ → List ℕ → List ℕ
put_text [] rest = 0 ∷ rest
put_text (x ∷ xs) rest = x ∷ put_text xs rest

unfoldable pub put_etiqueta : Etiqueta → List ℕ → List ℕ
put_etiqueta e rest = put16 (length e.key + 1) (put_text e.key (put32 e.value rest))

unfoldable pub indice_etiquetas_serializer : List Etiqueta → List ℕ → List ℕ
indice_etiquetas_serializer xs rest = put16 (length xs) (put_all put_etiqueta xs rest)

unfoldable pub pcb_serializer : Pcb → List ℕ → List ℕ
pcb_serializer pcb rest = put16 pcb.pid (
    put16 pcb.pc (
      put16 pcb.cantidad_paginas (
        put16 pcb.sp (
          put16 pcb.exit_code (
            indice_codigo_serializer pcb (
              indice_stack_serializer pcb.indice_stack
                (indice_etiquetas_serializer pcb.indice_etiquetas rest)))))))

unfoldable pub get_indice_codigo : Reader IndiceCodigo
get_indice_codigo = do
  offset ← get32
  size ← get32
  return (record { offset = offset; size = size })

unfoldable pub get_posicion : Reader PosicionMemoria
get_posicion = do
  pagina ← get32
  offset ← get32
  size ← get32
  return (record { pagina = pagina; offset = offset; size = size })

unfoldable pub get_args_vars : Reader ArgsVars
get_args_vars = do
  id ← get8
  pagina ← get32
  offset ← get32
  size ← get32
  return (record { id = id; pagina = pagina; offset = offset; size = size })

-- The rounds of `for (i = 0; i < n; i++)` for an int: none if it is negative.
unfoldable pub rounds_of : ℕ → ℕ
rounds_of n = if leb (2 ^ 31) n then 0 else n

unfoldable pub get_element : Reader ElementStack
get_element = do
  ret_pos ← get32
  ret_var ← get_posicion
  length_args ← get32
  args ← get_all get_args_vars (rounds_of length_args)
  length_vars ← get32
  vars ← get_all get_args_vars (rounds_of length_vars)
  return (record { ret_pos = ret_pos; ret_var = ret_var; args = args; vars = vars })

-- The text up to its NUL, that string_append copies.
unfoldable pub text_of : List ℕ → Option (List ℕ)
text_of [] = none
text_of (x ∷ xs) =
    let more = text_of xs in
    if x == 0 then some [] else (elim more [ none ↦ none | some cs ↦ some (x ∷ cs) ])

-- `offset += n`
unfoldable pub skip : ℕ → List ℕ → List ℕ
skip zero bytes = bytes
skip (suc n) [] = []
skip (suc n) (x ∷ xs) = skip n xs

unfoldable pub get_key : ℕ → Reader (List ℕ)
get_key key_length bytes = elim (text_of bytes) [
  | none ↦ none
  | some key ↦ some (key, skip key_length bytes)
]

unfoldable pub get_etiqueta : Reader Etiqueta
get_etiqueta = do
  key_length ← get16
  key ← get_key key_length
  value ← get32
  return (record { key = key; value = value })

unfoldable pub get_pcb : Reader Pcb
get_pcb = do
  pid ← get16
  pc ← get16
  cantidad_paginas ← get16
  sp ← get16
  exit_code ← get16
  length_indice_codigo ← get16
  indice_codigo ← get_all get_indice_codigo length_indice_codigo
  length_stack ← get32
  indice_stack ← get_all get_element (rounds_of length_stack)
  length_etiquetas ← get16
  indice_etiquetas ← get_all get_etiqueta length_etiquetas
  return (record {
    pid = pid;
    pc = pc;
    cantidad_paginas = cantidad_paginas;
    exit_code = exit_code;
    sp = sp;
    cantidad_instrucciones = length_indice_codigo;
    indice_stack = indice_stack;
    indice_codigo = indice_codigo;
    indice_etiquetas = indice_etiquetas;
  })

unfoldable pub deserializer_pcb : List ℕ → Option Pcb
deserializer_pcb buffer = elim (get_pcb buffer) [ none ↦ none | some (pcb, rest) ↦ some pcb ]
